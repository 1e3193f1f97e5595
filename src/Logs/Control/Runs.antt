-- ===== src/Logs/Control/Runs.antt =====
-- What the streams that were started may still do to the log sheet, in whatever order their events come.
use vps_monitor.Common.{
  sym, List, Text, ℕ, [], ◌∷◌, ◌++◌, true, false, not, ◌&&◌, ◌||◌, if◌then◌else◌, ◌==◌, ◌≡◌, refl,
  ◌∙◌, arith, ◌⊎◌, inl, inr, append_assoc, append-nil,
}
use vps_monitor.Logs.Control.{
  Event, received, ended, threw, Sheet, member, without, deliver, deliver_all,
}

pub member-without :
    (n k : ℕ) (ns : List ℕ) → member n (without k ns) ≡ (member n ns && not (n == k))
member-without n k [] = ground arith
member-without n k (m ∷ ns) = ground (arith, member-without n k ns)

module _ {ℓ} {Entry : Type ℓ} where
  -- The entries that a stream sends before it ends or throws.
  abbrev pub sent : ℕ → List (Event Entry) → List Entry
  sent run [] = []
  sent run (received other entry ∷ es) =
      let rest = sent run es in if other == run then entry ∷ rest else rest
  sent run (ended other ∷ es) = let rest = sent run es in if other == run then [] else rest
  sent run (threw other error ∷ es) = let rest = sent run es in if other == run then [] else rest

  -- Every stream that runs was aborted, but for those the list names.
  abbrev pub Silent : List ℕ → Sheet Entry → Type 0
  Silent but s = (n : ℕ) → member n s.running ≡ true → (member n s.aborted || member n but) ≡ true

  module _ (to_lower : Text → Text) where
    aborted-deliver :
        (e : Event Entry) (s : Sheet Entry) → (deliver to_lower e s).aborted ≡ s.aborted
    unfolding deliver
    aborted-deliver (received run entry) s = ground arith
    aborted-deliver (ended run) s = ground arith
    aborted-deliver (threw run error) s = ground arith

    running-deliver :
        (n : ℕ) (e : Event Entry) (s : Sheet Entry)
        → member n (deliver to_lower e s).running ≡ true
        → member n s.running ≡ true
    unfolding deliver
    running-deliver n (received run entry) s h = ground (arith, member-without n run s.running, h)
    running-deliver n (ended run) s h = ground (arith, member-without n run s.running, h)
    running-deliver n (threw run error) s h = ground (arith, member-without n run s.running, h)

    deliver-Silent :
        (but : List ℕ) (e : Event Entry) (s : Sheet Entry)
        → Silent but s
        → Silent but (deliver to_lower e s)
    deliver-Silent but e s h n r = rw (aborted-deliver e s) (h n (running-deliver n e s r))

    logs-deliver-Silent :
        (e : Event Entry) (s : Sheet Entry) → Silent [] s → (deliver to_lower e s).logs ≡ s.logs
    unfolding deliver
    logs-deliver-Silent (received run entry) s h = ground (arith, h run)
    logs-deliver-Silent (ended run) s h = ground arith
    logs-deliver-Silent (threw run error) s h = ground arith

    -- Where every running stream was aborted, the events that still come do not change the logs.
    pub logs-deliver_all-Silent :
        (es : List (Event Entry)) (s : Sheet Entry)
        → Silent [] s
        → (deliver_all to_lower es s).logs ≡ s.logs
    logs-deliver_all-Silent [] s h = refl
    logs-deliver_all-Silent (e ∷ es) s h =
        logs-deliver_all-Silent es (deliver to_lower e s) (deliver-Silent [] e s h)
        ∙ logs-deliver-Silent e s h

    logs-deliver :
        (run : ℕ) (e : Event Entry) (es : List (Event Entry)) (s : Sheet Entry)
        → member run s.running ≡ true
        → member run s.aborted ≡ false
        → Silent (run ∷ []) s
        → ((member run (deliver to_lower e s).running ≡ true)
            × ((deliver to_lower e s).logs ++ sent run es ≡ s.logs ++ sent run (e ∷ es)))
          ⊎ ((member run (deliver to_lower e s).running ≡ false)
              × ((deliver to_lower e s).logs ≡ s.logs ++ sent run (e ∷ es)))
    unfolding deliver
    logs-deliver run (received other entry) es s r a h = ground (
      arith,
      member-without run other s.running,
      r,
      a,
      h other,
      append_assoc s.logs (entry ∷ []) (sent run es),
      append-nil s.logs,
    )
    logs-deliver run (ended other) es s r a h = ground (
      arith,
      member-without run other s.running,
      r,
      a,
      h other,
      append_assoc s.logs ([]) (sent run es),
      append-nil s.logs,
    )
    logs-deliver run (threw other error) es s r a h = ground (
      arith,
      member-without run other s.running,
      r,
      a,
      h other,
      append_assoc s.logs ([]) (sent run es),
      append-nil s.logs,
    )

    Silent-left :
        (run : ℕ) (s : Sheet Entry)
        → Silent (run ∷ []) s
        → member run s.running ≡ false
        → Silent [] s
    Silent-left run s h out n r = ground (arith, h n r, out, r)

    pub logs-deliver_all :
        (run : ℕ) (es : List (Event Entry)) (s : Sheet Entry)
        → member run s.running ≡ true
        → member run s.aborted ≡ false
        → Silent (run ∷ []) s
        → (deliver_all to_lower es s).logs ≡ s.logs ++ sent run es
    logs-deliver_all run [] s r a h = sym (append-nil s.logs)
    logs-deliver_all run (e ∷ es) s r a h =
        let next = deliver to_lower e s in
        let still = deliver-Silent (run ∷ []) e s h in
        elim (logs-deliver run e es s r a h) [
          | inl goes ↦
              logs-deliver_all run es next goes.0 (rw (aborted-deliver e s) a) still ∙ goes.1
          | inr gone ↦ logs-deliver_all-Silent es next (Silent-left run next still gone.0) ∙ gone.1
        ]
