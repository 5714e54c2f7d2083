-- ===== src/Runtime/Publisher/Tests.antt =====
-- Publication of a small bundle, with the identity for the hash function.
use nexus_move.Prelude.{◌≡◌, ◌⊎◌, refl, arith, none, List, [], ◌∷◌, Bytes, ascii, ok, replicate}
use nexus_move.Types.{AccountAddress, HashValue}
use nexus_move.Bytecode.{default_limits}
use nexus_move.Bytecode.Verdict.{IsWellFormed}
use nexus_move.Runtime.Changes.{Store}
use nexus_move.Runtime.Config.{testing_config}
use nexus_move.Runtime.Data.{move_abort, without_effects}
use nexus_move.Runtime.Publisher.{publish_verified_modules, bundle_address}
use nexus_move.Runtime.Publisher.Laws.{
  Rejected, AlreadyPublished, OutOfGas, Published, publish_outcomes,
}
use nexus_move.Runtime.Publisher.Effects.{published, Holds, publish_writes-Holds, publish_again}
use nexus_move.Runtime.State.{NexusStateView}

abbrev identity : Bytes → HashValue
identity s = s

abbrev bundle : List Bytes
bundle = (1 ∷ 2 ∷ []) ∷ (3 ∷ []) ∷ []

abbrev sender : AccountAddress
sender = replicate 32 1

abbrev empty_store : Store
empty_store slot = none

abbrev empty_view : NexusStateView
empty_view = record { get = λ a key. ok none }

publish_outcomes_example :
    Rejected identity empty_view empty_store (λ a key. refl) sender bundle 50000 testing_config
    ⊎ (AlreadyPublished identity empty_view empty_store
          (λ a key. refl)
          sender
          bundle
          50000
          testing_config
        ⊎ (OutOfGas identity empty_view empty_store
              (λ a key. refl)
              sender
              bundle
              50000
              testing_config
            ⊎ Published identity empty_view empty_store
                (λ a key. refl)
                sender
                bundle
                50000
                testing_config))
publish_outcomes_example =
    publish_outcomes identity empty_view empty_store (λ a key. refl) sender bundle 50000
      testing_config

publish_writes-Holds_example :
    Holds identity empty_store
      (ascii "at")
      sender
      bundle
      (published identity empty_store (ascii "at") sender bundle)
publish_writes-Holds_example = publish_writes-Holds identity empty_store (ascii "at") sender bundle

bundle-IsWellFormed : IsWellFormed default_limits bundle
bundle-IsWellFormed = record {
  nonempty = λ e. cc;
  count = omega arith;
  total = omega arith;
  each = (((λ e. cc), omega arith), (((λ e. cc), omega arith), tt));
  distinct = (((λ e. cc), tt), (tt, tt));
}

-- The store after the publication, read through a view.
abbrev after_view : NexusStateView
after_view = record {
  get = λ a key. ok (
      published identity empty_store (bundle_address identity sender bundle) sender bundle
        (a, key));
}

publish_again_example :
    publish_verified_modules identity after_view sender bundle 0 testing_config
    ≡ ok (record {
      vm_output = without_effects (move_abort (ascii "nexus::publish") 20) 2000;
      contract_address = bundle_address identity sender bundle;
    })
publish_again_example =
    publish_again identity after_view empty_store sender bundle 0 testing_config (λ a key. refl)
      bundle-IsWellFormed
