-- ===== src/Verify/Journey/Polled.antt =====
-- The wait for the history: what one that ends has asked and been answered.
use relay_scheduler.Base.{
  ℕ, zero, suc, ◌≡◌, refl, subst, ◌⊎◌, inl, inr, Bool, true, false, Option, some, if◌then◌else◌,
}
use relay_scheduler.Clock.{Time}
use relay_scheduler.Text.{Text}
use relay_scheduler.Verify.Journey.{Frontdoor, Request, HistoryEntry, poll, get_history}
use relay_scheduler.Verify.Journey.Drive.{round, Visit, Waited, late, ended, ask, wait_for_history}
use relay_scheduler.Verify.Journey.Passing.{Sent, Grows, Grows-trans, Newest}
use relay_scheduler.Verify.Journey.Seen.{polled}

module _ {ℓ} {S : Type ℓ} (door : Frontdoor S) where
  pub ask-Grows : (v : Visit S) (q : Request) → Grows v.exchanges (ask door v q).0.exchanges
  ask-Grows v q p P h = inr h

  -- A wait that ends has asked for the history, and returns the newest entry of the last answer.
  unfoldable pub Polled : Visit S → Text → Visit S × Waited → Type 1
  Polled v id (u, late note) = Grows v.exchanges u.exchanges
  Polled v id (u, ended h) =
      Grows v.exchanges u.exchanges × Sent u.exchanges (get_history id) (Newest h)

  Polled-earlier :
      (v u : Visit S) (id : Text) (x : Visit S × Waited)
      → Grows v.exchanges u.exchanges
      → Polled u id x
      → Polled v id x
  unfolding Polled
  Polled-earlier v u id (w, late note) g p = Grows-trans _ _ _ g p
  Polled-earlier v u id (w, ended h) g (p, sent) = (Grows-trans _ _ _ g p, sent)

  round-Polled :
      (v : Visit S) (id : Text) (deadline : Time) (rest : Option (Visit S × Waited))
      (o : Text ⊎ HistoryEntry) (x : Visit S × Waited)
      → ((h : HistoryEntry) → o ≡ inr h → Newest h (ask door v (get_history id)).1)
      → ((y : Visit S × Waited) → rest ≡ some y → Polled (ask door v (get_history id)).0 id y)
      → round door (ask door v (get_history id)).0 deadline rest o ≡ some x
      → Polled v id x
  unfolding Polled
  round-Polled v id deadline rest (inr h) x newest later e =
      let u = (ask door v (get_history id)).0 in
      let same : ◌≡◌ {A = Visit S × Waited} (u, ended h) x = cc in
      subst (Polled v id) same (ask-Grows v (get_history id), inl (refl, newest h refl))
  round-Polled v id deadline rest (inl note) x newest later e =
      let u = (ask door v (get_history id)).0 in
      let slept : Visit S = record u { world = door.sleep u.world } in
      if_some (Polled v id x) _ _ _ x (stopped u (λ q P h. inr h))
        (if_some (Polled v id x) _ _ _ x (stopped slept (λ q P h. inr h))
          (λ f. Polled-earlier v u id x (ask-Grows v (get_history id)) (later x f)))
        e
    where
      if_some :
          (P : Type 1) (b : Bool) (y z : Option (Visit S × Waited)) (x : Visit S × Waited)
          → (y ≡ some x → P)
          → (z ≡ some x → P)
          → (if b then y else z) ≡ some x
          → P
      if_some P true y z x f g h = f h
      if_some P false y z x f g h = g h

      stopped :
          (w : Visit S)
          → Grows v.exchanges w.exchanges
          → ◌≡◌ {A = Option (Visit S × Waited)} (some (w, late note)) (some x)
          → Polled v id x
      stopped w g f =
          let same : ◌≡◌ {A = Visit S × Waited} (w, late note) x = cc in subst (Polled v id) same g

  pub wait-Polled :
      (fuel : ℕ) (v : Visit S) (id : Text) (deadline : Time) (x : Visit S × Waited)
      → wait_for_history door fuel v id deadline ≡ some x
      → Polled v id x
  unfolding wait_for_history
  wait-Polled zero v id deadline x h = cc
  wait-Polled (suc fuel) v id deadline x h =
      let (u, a) = ask door v (get_history id) in
      let slept = record u { world = door.sleep u.world } in
      round-Polled v id deadline (wait_for_history door fuel slept id deadline) (poll a) x
        (polled a)
        (λ y e. Polled-earlier u slept id y (λ q P h. h) (wait-Polled fuel slept id deadline y e)) h
