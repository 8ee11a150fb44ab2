-- ===== src/Condvar/Signals.antt =====
-- src/condvar.rs: the scan of `unpark`, and the signals that it leaves in the word.
use usync.Prelude.{
  ℕ, zero, suc, ◌+◌, ◌≤◌, true, none, ◌≡◌, ◌≢◌, refl, inl, inr, leb, Bool-cases, Option-cases,
  arith,
}
use usync.Prog.{solo, ◌>>=◌, access}
use usync.Shared.{Memory, Config}
use usync.Condvar.{Word, Words}
use usync.Condvar.Notify.{scan, dequeued}

module _ (g : Config) (m : Memory Words) where
  -- The scan returns, leaves the memory alone, and ends with fewer waiters than asked for only at
  -- the head of the queue.
  scan_lem :
      (f max_scan front scanned : ℕ)
      → max_scan ≤ scanned + f
      → (front' : ℕ) × (n : ℕ) × (solo (scan g (suc f) max_scan front scanned) m
          ≡ (m, inl (front', n)))
        × ((m.heap front').prev ≢ none → max_scan ≤ n)
  unfolding scan solo ◌>>=◌ access
  scan_lem zero max_scan front scanned le =
      let enough : leb max_scan scanned ≡ true = ground arith in
      (front, scanned, rw (enough, solo) refl, λ _. omega arith)
  scan_lem (suc f) max_scan front scanned le = elim (Bool-cases (leb max_scan scanned)) [
    | inl enough ↦ (front, scanned, rw (enough, solo) refl, λ _. ground (arith, enough))
    | inr few ↦ elim (Option-cases (m.heap front).prev) [
      | inl head ↦ (front, scanned, rw (few, solo, ◌>>=◌, head) refl, λ h. absurd (h head))
      | inr (p, e) ↦
          let (front', n, ends, full) = scan_lem f max_scan p (scanned + 1) (omega arith) in
          (front', n, rw (few, solo, ◌>>=◌, e) ends, full)
    ]
  ]

  -- Alone with the queue, and on fuel for the signals of the word, the scan that `unpark` makes
  -- returns and leaves the memory alone; and where it leaves waiters in the queue in front of those
  -- that it takes, the word that `unpark` then proposes still has all the signals of the old one:
  -- none of them is taken off, whatever `also_wake` is.
  pub signals_stay :
      (w : Word) (also_wake f front scanned : ℕ)
      → w.signals + also_wake ≤ scanned + f
      → (front' : ℕ) × (n : ℕ) × (solo (scan g (suc f) (w.signals + also_wake) front scanned) m
          ≡ (m, inl (front', n)))
        × ((m.heap front').prev ≢ none → (dequeued w n).signals ≡ w.signals)
  signals_stay w also_wake f front scanned le =
      let (front', n, ends, full) = scan_lem f (w.signals + also_wake) front scanned le in
      (front', n, ends, λ more. let all = full more in omega arith)
