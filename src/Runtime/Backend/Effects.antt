-- ===== src/Runtime/Backend/Effects.antt =====
-- The effects of a run as the chain receives them: the changes and the write set agree.
use nexus_move.Prelude.{List, [], ◌∷◌}
use nexus_move.Types.{AccountAddress}
use nexus_move.Runtime.Changes.{Agrees, Agrees-nil, Agrees-push}
use nexus_move.Runtime.Publisher.{Writes}
use nexus_move.Runtime.Backend.{
  MoveEnv, Op, account_to_nexus, accounts_to_nexus, changeset_to_nexus,
}

module _ (env : MoveEnv) where
  account_to_nexus-Agrees :
      (a : AccountAddress) (resources : List (env.StructTag × Op)) (w : Writes)
      → Agrees w.0 w.1
      → Agrees (account_to_nexus env a resources w).0 (account_to_nexus env a resources w).1
  unfolding account_to_nexus
  account_to_nexus-Agrees a [] w h = h
  account_to_nexus-Agrees a ((struct_tag, op) ∷ resources) w h =
      account_to_nexus-Agrees a resources _ (Agrees-push w.0 w.1 a _ _ h)

  accounts_to_nexus-Agrees :
      (accounts : List (AccountAddress × List (env.StructTag × Op))) (w : Writes)
      → Agrees w.0 w.1
      → Agrees (accounts_to_nexus env accounts w).0 (accounts_to_nexus env accounts w).1
  unfolding accounts_to_nexus
  accounts_to_nexus-Agrees [] w h = h
  accounts_to_nexus-Agrees ((a, resources) ∷ accounts) w h =
      accounts_to_nexus-Agrees accounts _ (account_to_nexus-Agrees a resources w h)

  -- Whatever a run changes, the state changes, applied in order, and the write set leave the same
  -- value in every slot: also where two struct tags share a key.
  pub changeset_to_nexus-Agrees :
      (change_set : List (AccountAddress × List (env.StructTag × Op)))
      → Agrees (changeset_to_nexus env change_set).0 (changeset_to_nexus env change_set).1
  unfolding changeset_to_nexus
  changeset_to_nexus-Agrees change_set = accounts_to_nexus-Agrees change_set ([], []) Agrees-nil
