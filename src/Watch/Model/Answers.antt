-- ===== src/Watch/Model/Answers.antt =====
-- Answers of the runtime keep the watch valid and its subscription.
use zodex.Common.{ℕ, refl, false, List, [], ◌∷◌, arith, Bytes}
use zodex.Common.Dict.{insert}
use zodex.Watch.Records.{PresentationRecord}
use zodex.Watch.State.{LiveOutput, Detail, WatchApp, stream_filter}
use zodex.Watch.View.{Display, clamp_selection}
use zodex.Watch.Arrivals.{remove_outputs, merge_detail, merge_presentation, append_live_output}
use zodex.Watch.Model.Valid.{
  AllClean, IsValid, AllClean-remove, merge_records-InOrder, append_output-Clean, held-Clean,
  clamped-IsValid,
}
use zodex.Watch.Model.Follows.{Good, same-Good}

module _ (display : Display) where
  remove_outputs-AllClean :
      (records : List PresentationRecord) (outputs : List (ℕ × LiveOutput))
      → AllClean outputs
      → AllClean (remove_outputs display records outputs)
  remove_outputs-AllClean [] outputs h = h
  remove_outputs-AllClean (r ∷ records) outputs h =
      remove_outputs-AllClean records _ (AllClean-remove _ outputs h)

  pub merge_detail-Good :
      (detail : Detail) (app : WatchApp)
      → IsValid display app
      → Good display app (merge_detail display detail app, [])
  unfolding merge_detail
  merge_detail-Good detail app v = record {
    valid =
        clamped-IsValid display app _ v v.picker_there v.scrolled
          (AllClean-remove detail.invocation_id app.live_output v.clean)
          (merge_records-InOrder display _ detail.records app.cards v.in_order);
    follows = unfold stream_filter clamp_selection in refl;
  }

  pub merge_presentation-Good :
      (records : List PresentationRecord) (app : WatchApp)
      → IsValid display app
      → Good display app (merge_presentation display records app, [])
  unfolding merge_presentation
  merge_presentation-Good records app v = record {
    valid =
        clamped-IsValid display app _ v v.picker_there v.scrolled
          (remove_outputs-AllClean records app.live_output v.clean)
          (merge_records-InOrder display false records app.cards v.in_order);
    follows = unfold stream_filter clamp_selection in refl;
  }

  pub append_live_output-Good :
      (id : ℕ) (text : Bytes) (app : WatchApp)
      → IsValid display app
      → Good display app (append_live_output display id text app, [])
  unfolding append_live_output insert
  append_live_output-Good id text app v =
      same-Good display app _ v v.picker_there (omega arith) v.scrolled
        (
          append_output-Clean display text _ (held-Clean id app.live_output v.clean),
          AllClean-remove id app.live_output v.clean,
        )
        refl refl refl
