-- ===== src/History/OutputQueue/Order/Calls.antt =====
-- The history runtime over any sequence of observer calls.
use zodex.Common.{
  ℕ, ◌≡◌, ◌≢◌, refl, ◌∙◌, List, [], ◌∷◌, ◌++◌, append-nil, append_assoc, Option, Bytes,
}
use zodex.Common.Dict.{lookup, get_default}
use zodex.History.Overflow.{Chunk, chunk}
use zodex.History.OutputQueue.{
  Answer, LocalHistoryRuntime, initial, observe_output, observe_output_complete,
}
use zodex.History.OutputQueue.Recorded.{Recorded, observe_output_complete-Recorded}
use zodex.History.OutputQueue.Order.{chunks_of}
use zodex.History.OutputQueue.Order.Runs.{OrderedIn, completions_of}
use zodex.History.OutputQueue.Order.Offers.{observe_output-Ordered, observe_output-completions}
use zodex.History.OutputQueue.Order.Ends.{
  observe_output_complete-Whole, observe_output_complete-Ordered,
}

pub data Call : Type 0 where
  output : Chunk → Call
  ended : ℕ → Option Bytes → Call

unfoldable pub call : (ℕ → Answer) → LocalHistoryRuntime → Call → LocalHistoryRuntime
call channel r (output c) = observe_output channel r c
call channel r (ended id agent) = observe_output_complete channel r id agent

unfoldable pub run : (ℕ → Answer) → LocalHistoryRuntime → List Call → LocalHistoryRuntime
run channel r [] = r
run channel r (c ∷ cs) = run channel (call channel r c) cs

-- The chunks of `j` among the calls.
abbrev pub offered : ℕ → List Call → List Chunk
offered j [] = []
offered j (output c ∷ cs) = chunks_of j (chunk c ∷ []) ++ offered j cs
offered j (ended _ _ ∷ cs) = offered j cs

-- The output of `j` has not ended yet.
abbrev pub Unended : ℕ → List Call → Type 0
Unended j [] = Unit {0}
Unended j (output _ ∷ cs) = Unended j cs
Unended j (ended id _ ∷ cs) = (id ≢ j) × Unended j cs

module _ (channel : ℕ → Answer) (j : ℕ) where
  run-Ordered :
      (cs : List Call) (r : LocalHistoryRuntime) (xs : List Chunk)
      → Unended j cs
      → OrderedIn j xs r
      → completions_of j r.sent ≡ []
      → OrderedIn j (xs ++ offered j cs) (run channel r cs)
        × (completions_of j (run channel r cs).sent ≡ [])
  unfolding run call
  run-Ordered [] r xs u v quiet = (rw append-nil v, quiet)
  run-Ordered (output c ∷ cs) r xs u v quiet =
      rw (← append_assoc xs (chunks_of j (chunk c ∷ [])) (offered j cs)) (
        run-Ordered cs (observe_output channel r c) (xs ++ chunks_of j (chunk c ∷ [])) u
          (observe_output-Ordered channel j xs r c v)
          (observe_output-completions channel j xs r c v ∙ quiet))
  run-Ordered (ended id agent ∷ cs) r xs u v quiet =
      let (kept, same) = observe_output_complete-Ordered channel j xs r id agent u.0 v in
      run-Ordered cs (observe_output_complete channel r id agent) xs u.1 kept (same ∙ quiet)

-- Whatever the bounded channel answers and however the output of other invocations interleaves, at
-- the end of an invocation's output: if the channel has accepted that the output is complete, then
-- the chunks of the invocation that the channel has accepted are exactly those observed, in order;
-- and if it has not, then the channel has accepted an event that says that the output is incomplete,
-- or the health names the invocation as one whose capture is incomplete.
pub run-Whole :
    (channel : ℕ → Answer) (j : ℕ) (cs : List Call) (agent : Option Bytes)
    → Unended j cs
    → let q = observe_output_complete channel (run channel initial cs) j agent in
      (completions_of j q.sent ≢ [] → chunks_of j q.sent ≡ offered j cs) × Recorded j q
unfolding lookup get_default
run-Whole channel j cs agent u =
    let begun : OrderedIn j [] initial = record { mine = λ i. tt; order = λ n. refl } in
    let (kept, quiet) = run-Ordered channel j cs initial [] u begun refl in
    (
      observe_output_complete-Whole channel j (offered j cs) (run channel initial cs) agent kept
          quiet,
      observe_output_complete-Recorded channel j (run channel initial cs) agent,
    )
