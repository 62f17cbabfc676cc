-- ===== src/Tests/Program.antt =====
-- The theorems on the program, on the chain for development.
use bunzo.Prelude.{◌≡◌, refl, In, false, List, [], ◌∷◌, none, some, arith}
use bunzo.Prelude.Result.{ok, err}
use bunzo.Types.UserOperation as Op
use bunzo.Pool.Entry.{PoolEntry, new_entry}
use bunzo.Pool.Store.{get_by_id}
use bunzo.Pool.Represents.{Represents}
use bunzo.Pool.Refines.{spec_add, add_refines}
use bunzo.Provider.Traits.{success}
use bunzo.Builder.Proposer.{Answers}
use bunzo.Builder.Task.State.{World, submitting}
use bunzo.Program.{CliArgs, Environment, Program, Event, submits, ticks, main, run}
use bunzo.Program.Mined.{Confirming, bundle_mined}
use bunzo.Builder.Tracker.{Receipt}
use bunzo.Builder.Task.Mined.{bundled}
use bunzo.Types.UserOperation.Packing.{UserOperation, UserOperationId, pack}
use bunzo.Program.Delivered.{Ready, submitted_settled}
use bunzo.Program.Bundled.{accepted_api}
use bunzo.Tests.Data.{
  hasher, fractions, op_next, pool_ab, entries_ab, pool_ab-Represents, empty, empty-Represents,
}
use bunzo.Tests.Builder.{fees}
use bunzo.Tests.Bundler.{world, started, bundle}
use bunzo.Tests.Rpc.{api, fresh, op_sent, submissions}

abbrev pub cli : CliArgs
cli = record {
  chain_id = 0;
  entry_point = 0;
  private_key = some "key";
  max_pool_size = 4;
  rpc_addr = (0, 3000);
}

abbrev pub outside : Environment
outside = record { from_private_key = λ key. ok 1; get_chain_id = ok 31337; get_nonce = ok 4 }

-- What `main` sets up.
unfoldable pub running : Program fractions
unfolding main bunzo.Program.resolve_chain_id bunzo.Program.start_bundler bunzo.Builder.Task.start
running = elim (main fractions outside cli) [
  | ok s ↦ s
  | err e ↦ record { api = fresh; bundler = none }
]

abbrev events : List (Event fractions)
events = submits op_next 0 ∷ ticks world ∷ ticks world ∷ []

abbrev accepting : Answers
accepting = record {
  current_fees = ok fees;
  base_fee = ok 5;
  call_handle_ops = λ attempt ops beneficiary gas f. ok success;
}

abbrev good_world : World
good_world = record world { proposer_answers = accepting }

abbrev waiting : Program fractions
waiting = record { api = fresh; bundler = some started }

sent-Represents :
    Represents
      (accepted_api fractions hasher waiting started op_next 0 world good_world).op_pool
      (new_entry hasher op_sent 0 0 ∷ [])
unfolding submissions spec_add bunzo.Pool.Contents.hash_index bunzo.Pool.Contents.id_index
    bunzo.Pool.Contents.count
sent-Represents = (add_refines hasher empty [] empty-Represents op_sent 0).1

abbrev signing : World
signing = record world { sign_transaction = λ tx chain_id. ok (1 ∷ []) }

abbrev receipt : Receipt
receipt = record { block_number = some 9 }

abbrev including : World
including = record world { get_receipt = λ hash. ok (some receipt) }

abbrev sending : Program fractions
sending = record {
  api = api;
  bundler = some (record started { state = submitting; current_bundle = some bundle });
}

bundle_mined_example :
    let s' = run fractions hasher sending (ticks signing ∷ ticks including ∷ []) in
    Confirming s'.bundler
    × ((l' : List PoolEntry) × Represents s'.api.op_pool l')
    × ((uo : UserOperation) → In (pack uo) bundle.ops → get_by_id s'.api.op_pool (Op.id uo) ≡ none)
    × ((i : UserOperationId)
        → bundled i bundle.ops ≡ false
        → get_by_id s'.api.op_pool i ≡ get_by_id pool_ab i)
bundle_mined_example =
    bundle_mined fractions hasher sending
      (record started { state = submitting; current_bundle = some bundle }) bundle entries_ab
      signing including (1 ∷ []) 66 receipt refl refl refl pool_ab-Represents refl refl refl

abbrev at_ten : World
at_ten = record world { get_block_number = ok 10 }

abbrev at_twelve : World
at_twelve = record world { get_block_number = ok 12 }

submitted_settled_example :
    let s' = run fractions hasher waiting (
      submits op_next 0
      ∷ ticks world
      ∷ ticks good_world
      ∷ ticks signing
      ∷ ticks including
      ∷ ticks at_ten
      ∷ ticks at_twelve
      ∷ ticks world
      ∷ []) in
    Ready 5 s'.bundler
    × ((l' : List PoolEntry) × Represents s'.api.op_pool l')
    × (get_by_id s'.api.op_pool (Op.id op_sent) ≡ none)
unfolding submissions bunzo.Builder.Tracker.next_nonce
submitted_settled_example =
    submitted_settled fractions hasher waiting started op_next 0 world good_world signing including
      at_twelve world (at_ten ∷ []) (new_entry hasher op_sent 0 0 ∷ []) []
      (Op.compute_hash hasher op_sent) 5 9 12 fees refl refl empty-Represents refl sent-Represents
      (omega arith) refl refl (λ attempt ops beneficiary gas f. refl) refl
      (λ tx chain_id. (1 ∷ [], refl), λ raw. (66, refl)) (λ hash. refl)
      (λ current told. ground (arith, told), tt) refl (omega arith)
