-- ===== src/Watch/Model/Run.antt =====
-- The watch under any sequence of keys, events and answers.
use zodex.Common.{ℕ, ◌≡◌, refl, sym, ap, ◌∙◌, List, [], ◌∷◌, Option, some, arith, Bytes}
use zodex.Watch.State.{ApiAgent, WatchOptions, WatchEffect, resubscribe, stream_filter}
use zodex.Watch.View.{Display}
use zodex.Watch.Model.{Call, Watch, perform, started, run}
use zodex.Watch.Model.Valid.{IsValid, new-IsValid, same-IsValid}
use zodex.Watch.Model.Follows.{followed}
use zodex.Watch.Model.Inputs.{call-Ends}

module _ (display : Display) where
  perform-follows :
      (effects : List WatchEffect) (w : Watch)
      → ((perform effects w).subscription ≡ followed w.subscription effects)
        × (stream_filter (perform effects w).app ≡ stream_filter w.app)
  unfolding perform stream_filter
  perform-follows [] w = (refl, refl)
  perform-follows (resubscribe filter ∷ effects) w = (refl, (perform-follows effects w).1)
  perform-follows (effect ∷ effects) w = perform-follows effects w

  perform-IsValid :
      (effects : List WatchEffect) (w : Watch)
      → IsValid display w.app
      → IsValid display (perform effects w).app
  unfolding perform
  perform-IsValid [] w v = v
  perform-IsValid (resubscribe filter ∷ effects) w v =
      let later = perform-IsValid effects w v in
      same-IsValid display (perform effects w).app _ later later.picker_there (omega arith)
        later.scrolled later.clean refl refl refl
  perform-IsValid (effect ∷ effects) w v = perform-IsValid effects w v

  -- What holds of the watch between two calls.
  pub record IsSound (w : Watch) : Type 0 where
    pub valid : IsValid display w.app
    pub subscribed : w.subscription ≡ stream_filter w.app

  IsSound-run :
      (calls : List Call) (w : Watch)
      → IsSound w
      → (w' : Watch) × (run display calls w ≡ some w') × IsSound w'
  unfolding run
  IsSound-run [] w h = (w, refl, h)
  IsSound-run (c ∷ calls) w h =
      let (r, called, g) = call-Ends display c w.app h.valid in
      let w1 : Watch = record w { app = r.0 } in
      let next : IsSound (perform r.1 w1) = record {
        valid = perform-IsValid r.1 w1 g.valid;
        subscribed =
            (perform-follows r.1 w1).0
            ∙ ap (λ (f : Option Bytes). followed f r.1) h.subscribed
            ∙ g.follows
            ∙ sym (perform-follows r.1 w1).1;
      } in
      let (w', ran, sound) = IsSound-run calls (perform r.1 w1) next in
      (w', rw (run, called) ran, sound)

  -- From its start, under any sequence of keys, events and answers, the watch never panics. The
  -- picker points at an entry that is there, the selection at a visible card if there is one; the
  -- cards are in order, with distinct keys and within their limit; the live outputs are within
  -- theirs, and hold no control character but line feeds and tabs and no mark of direction; and what
  -- the watch is subscribed to is the filter of its scope.
  pub run-IsSound :
      (calls : List Call) (agents : List ApiAgent) (count : ℕ) (options : WatchOptions)
      → (w : Watch) × (run display calls (started agents count options) ≡ some w) × IsSound w
  unfolding started
  run-IsSound calls agents count options =
      IsSound-run calls _
        (record { valid = new-IsValid display agents count options; subscribed = refl })
