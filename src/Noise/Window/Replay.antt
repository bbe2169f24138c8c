-- ===== src/Noise/Window/Replay.antt =====
-- Any sequence of counters handed to `mark_did_receive`: no counter passes twice, and one that was
-- never seen passes while it is within the window.
use veil_vpn.Prelude.{
  ℕ, ◌+◌, ◌^◌, ◌≤◌, ◌<◌, ◌≡◌, ◌≢◌, refl, ◌∙◌, sym, true, false, List, [], ◌∷◌, arith, All,
}
use veil_vpn.Noise.Errors.{ok, err, invalid_counter}
use veil_vpn.Noise.Window.{ReceivingKeyCounterValidator, default, n_bits, mark_did_receive}
use veil_vpn.Noise.Window.Bitmap.{check_bit-replicate}
use veil_vpn.Noise.Window.Refinement.{History, no_history, accept, Refines, mark_did_receive-accept}

-- The window after a sequence of calls.
unfoldable pub marks : ReceivingKeyCounterValidator → List ℕ → ReceivingKeyCounterValidator
marks v [] = v
marks v (c ∷ cs) = marks (mark_did_receive v c).0 cs

unfoldable pub accepts : History → List ℕ → History
accepts w [] = w
accepts w (c ∷ cs) = accepts (accept w c).0 cs

-- A counter for which `counter + N_BITS` does not wrap.
abbrev pub IsCounter : ℕ → Type 0
IsCounter c = c + n_bits < 2 ^ 64

pub default-Refines : Refines default no_history
default-Refines = record {
  next_eq = refl;
  sized = refl;
  agrees = λ c p q. check_bit-replicate c;
  fresh = λ c p. refl;
}

-- The window and its history stay in step over any sequence of calls.
pub marks-Refines :
    (v : ReceivingKeyCounterValidator) (w : History) (cs : List ℕ)
    → All IsCounter cs
    → Refines v w
    → Refines (marks v cs) (accepts w cs)
unfolding marks accepts
marks-Refines v w [] b r = r
marks-Refines v w (c ∷ cs) b r =
    marks-Refines (mark_did_receive v c).0 (accept w c).0 cs b.1
      (mark_did_receive-accept v w c b.0 r).1

-- A call never forgets a counter that was accepted before.
pub accept-kept : (w : History) (d c : ℕ) → w.seen c ≡ true → (accept w d).0.seen c ≡ true
accept-kept w d c h = ground arith

pub accepts-seen :
    (w : History) (cs : List ℕ) (c : ℕ) → w.seen c ≡ true → (accepts w cs).seen c ≡ true
unfolding accepts
accepts-seen w [] c h = h
accepts-seen w (d ∷ cs) c h = accepts-seen (accept w d).0 cs c (accept-kept w d c h)

pub accept-seen : (w : History) (c : ℕ) → (accept w c).1 ≡ ok tt → (accept w c).0.seen c ≡ true
accept-seen w c h = ground arith

pub accept-again : (w : History) (c : ℕ) → w.seen c ≡ true → (accept w c).1 ≡ err invalid_counter
accept-again w c h = ground arith

accepts-unseen :
    (w : History) (cs : List ℕ) (c : ℕ)
    → All (λ d. d ≢ c) cs
    → w.seen c ≡ false
    → (accepts w cs).seen c ≡ false
unfolding accepts
accepts-unseen w [] c n h = h
accepts-unseen w (d ∷ cs) c n h = accepts-unseen (accept w d).0 cs c n.1 (ground (arith, n.0))

module _ (before : List ℕ) (c : ℕ) (before_ok : All IsCounter before) (c_ok : IsCounter c) where
  reached : Refines (marks default before) (accepts no_history before)
  reached = marks-Refines default no_history before before_ok default-Refines

  -- No replay: after any sequence of calls, a counter that passes once is refused ever after,
  -- whatever is received in between.
  pub no_replay :
      (between : List ℕ)
      → All IsCounter between
      → (mark_did_receive (marks default before) c).1 ≡ ok tt
      → (mark_did_receive (marks (mark_did_receive (marks default before) c).0 between) c).1
        ≡ err invalid_counter
  no_replay between between_ok passed =
      let v = marks default before in
      let w = accepts no_history before in
      let first = mark_did_receive-accept v w c c_ok reached in
      let later =
        marks-Refines (mark_did_receive v c).0 (accept w c).0 between between_ok first.1 in
      (mark_did_receive-accept (marks (mark_did_receive v c).0 between)
        (accepts (accept w c).0 between) c c_ok later).0
      ∙ accept-again (accepts (accept w c).0 between) c
          (accepts-seen (accept w c).0 between c (accept-seen w c (sym first.0 ∙ passed)))

  -- Nothing is refused without a reason: a counter that no earlier call had passes if it is at most
  -- `N_BITS` behind the next one expected.
  pub unseen_passes :
      All (λ d. d ≢ c) before
      → (marks default before).next ≤ c + n_bits
      → (mark_did_receive (marks default before) c).1 ≡ ok tt
  unseen_passes new near =
      let v = marks default before in
      let w = accepts no_history before in
      let r : Refines v w = reached in
      let first = mark_did_receive-accept v w c c_ok r in
      let unseen = accepts-unseen no_history before c new refl in
      first.0 ∙ ground (arith, unseen, r.next_eq, near)
