-- ===== src/Condvar/Unpark.antt =====
-- Waking the waiters of a condition variable up keeps to the roles.
use usync.Prelude.{
  ℕ, zero, suc, ◌+◌, ◌≤◌, ◌<◌, Option, none, some, ◌≡◌, refl, ◌==◌, leb, ltb, match_option, arith,
}
use usync.Prog.{skip}
use usync.Prog.Safe.{Safe}
use usync.Shared.{Config}
use usync.Shared.Queue.Neutral.{get_and_link_queue-Neutral}
use usync.Shared.Protocol.{after, neutral, quiet, if-Keeps, option-Keeps, assert-Keeps}
use usync.Condvar.{Word, Code, init}
use usync.Condvar.Notify.{
  scan, dequeued, take_some, take_all, unpark_loop, unpark, link_queue_or_unpark, without_lock,
}
use usync.Condvar.Roles.{Role, Ok, condvar}
use usync.Condvar.Rules.{KnowsWord, Shift, holding, cas_word-Ok}
use usync.Condvar.Requeue.{Calm, EndsIn, released, empty_Shift, unpark_requeue-Ok, unpark_all-Ok}

module _ (g : Config) where
  -- The scan that ends at SIGNAL_MASK waiters has found six signals at least.
  abbrev Scanned : Role → ℕ → ℕ × ℕ → Role → Type 0
  Scanned r max_scan (front, n) r' = (r' ≡ r) × (7 ≤ n → 7 ≤ max_scan)

  scan-Ok :
      {r : Role} (f max_scan front scanned : ℕ)
      → (7 ≤ scanned → 7 ≤ max_scan)
      → Ok (Scanned r max_scan) (scan g f max_scan front scanned) r
  unfolding scan
  scan-Ok zero max_scan front scanned h = Safe.halt tt
  scan-Ok (suc f) max_scan front scanned h =
      if-Keeps condvar (leb max_scan scanned) (λ _. Safe.ret (refl, h))
        λ few.
          quiet condvar _ _ _ (λ c m. (refl, refl))
            λ prev.
              option-Keeps condvar prev (Safe.ret (refl, h))
                λ p. scan-Ok f max_scan p (scanned + 1) (λ le. ground (arith, few, le))

  -- A round of `unpark` is over without QUEUE_LOCKED, or goes on at a word that it has read, with
  -- the signals that it has seen there.
  abbrev Round : Role → Option Word → Role → Type 0
  Round r none r' = r' ≡ released r
  Round r (some w) r' = (r' ≡ holding r 1 w.signals) × KnowsWord (holding r 1 w.signals) w

  dequeued_Shift :
      {r : Role} (w : Word) (n : ℕ) → r.queue ≡ 1 → KnowsWord r w → Shift r w 0 0 (dequeued w n)
  dequeued_Shift w n has k = record {
    queue = ground (arith, k.queue, has);
    signals = omega arith;
    owned = omega arith;
    kept = λ other. absurd (other (ground (arith, k.queue, has)));
    word = ground (arith, k.word.signals, k.word.no_signal);
  }

  unlock_Shift :
      {r : Role} (w : Word) → r.queue ≡ 1 → KnowsWord r w → Shift r w 0 0 (without_lock w)
  unlock_Shift w has k = record {
    queue = ground (arith, k.queue, has);
    signals = omega arith;
    owned = omega arith;
    kept = λ other. omega arith;
    word = ground (arith, k.word.signals, k.word.no_signal);
  }

  -- What a thread with QUEUE_LOCKED does when a compare-exchange has failed.
  pub read_Shift : {r : Role} (w : Word) → r.queue ≡ 1 → KnowsWord r w → Shift r w 1 w.signals w
  read_Shift w has k = record {
    queue = omega arith;
    signals = omega arith;
    owned = omega (arith, k.word.signals);
    kept = λ other. omega arith;
    word = k.word;
  }

  pub read_Knows :
      {r : Role} (w : Word) → r.queue ≡ 1 → KnowsWord r w → KnowsWord (holding r 1 w.signals) w
  read_Knows w has k = record {
    queue = omega (arith, k.queue, has);
    signals = omega arith;
    owned = omega (arith, k.word.signals);
    word = k.word;
  }

  module _ {r : Role} (has : r.queue ≡ 1) (calm : Calm r) where
    take_some-Ok :
        (w : Word) (head tail front scanned new_tail : ℕ)
        → Ok (Round r) (take_some g w head tail front scanned new_tail) r
    unfolding take_some
    take_some-Ok w head tail front scanned new_tail =
        quiet condvar _ _ _ (λ c m. (refl, refl))
          λ _.
            quiet condvar _ _ _ (λ c m. (refl, refl))
              λ _.
                cas_word-Ok w (dequeued w scanned) _
                  (λ k. (
                    0,
                    0,
                    dequeued_Shift w scanned has k,
                    after condvar _ (unpark_requeue-Ok g front calm) λ _ r' e. Safe.ret e,
                  ))
                  λ w' k. (
                    1,
                    w'.signals,
                    read_Shift w' has k,
                    quiet condvar _ _ _ (λ c m. (refl, refl))
                        λ _.
                          quiet condvar _ _ _ (λ c m. (refl, refl))
                            λ _. Safe.ret (refl, read_Knows w' has k),
                  )

    take_all-Ok : (w : Word) (head : ℕ) → Ok (Round r) (take_all g w head) r
    unfolding take_all
    take_all-Ok w head =
        cas_word-Ok w init _
          (λ k. (
            0,
            0,
            empty_Shift w (ground (arith, k.queue, has)),
            after condvar _ (unpark_requeue-Ok g head calm) λ _ r' e. Safe.ret e,
          ))
          λ w' k. (1, w'.signals, read_Shift w' has k, Safe.ret (refl, read_Knows w' has k))

  continue-Ok :
      (r : Role) (loop : Word → Code (Unit {0})) (o : Option Word) (r' : Role)
      → Round r o r'
      → ((w : Word)
          → KnowsWord (holding r 1 w.signals) w
          → Ok (EndsIn (released r)) (loop w) (holding r 1 w.signals))
      → Ok (EndsIn (released r)) (match_option o skip loop) r'
  continue-Ok r loop none r' e next = Safe.ret e
  continue-Ok r loop (some w) r' (e, k) next = rw e (next w k)

  -- The scan of a round, from the tail or from where the last round has stopped.
  first_scan-Ok :
      {r : Role} (tail scanned : ℕ) (unparked : Option ℕ) (max_scan : ℕ)
      → scanned < 7
      → (unparked ≡ none → scanned ≡ 0)
      → Ok
          (Scanned r max_scan)
          (match_option unparked
            (scan g g.fuel max_scan tail (scanned + 1))
            λ front. scan g g.fuel max_scan front scanned)
          r
  first_scan-Ok tail scanned none max_scan few start =
      scan-Ok g.fuel max_scan tail (scanned + 1) λ le. omega (arith, start refl)
  first_scan-Ok tail scanned (some front) max_scan few start =
      scan-Ok g.fuel max_scan front scanned λ le. omega arith

  unpark_loop-Ok :
      (f : ℕ) {r : Role} (also_wake scanned : ℕ) (unparked : Option ℕ) (w : Word)
      → also_wake ≤ 1
      → scanned < 7
      → (unparked ≡ none → scanned ≡ 0)
      → r.queue ≡ 1
      → r.signals ≡ w.signals
      → Calm r
      → KnowsWord r w
      → Ok (EndsIn (released r)) (unpark_loop g f also_wake scanned unparked w) r
  unfolding unpark_loop
  unpark_loop-Ok zero also_wake scanned unparked w one few start has seen calm k = Safe.halt tt
  unpark_loop-Ok (suc f) {r} also_wake scanned unparked w one few start has seen calm k =
      assert-Keeps condvar _ _ _ (ground (arith, k.queue, has)) (
        if-Keeps condvar (w.signals == 7)
          (λ all. unpark_all-Ok g has (ground (arith, seen, all)) calm)
          λ some_room.
            neutral condvar _ (get_and_link_queue-Neutral g.fuel w.head) λ (head, tail, found).
              after condvar _
                (first_scan-Ok tail scanned unparked (w.signals + also_wake) few start)
                λ (front, n) r' (e, enough). rw e (
                  if-Keeps condvar (leb 7 n)
                    (λ many. unpark_all-Ok g has (ground (arith, enough, many, one, seen)) calm)
                    λ fewer.
                      quiet condvar _ _ _ (λ c m. (refl, refl))
                        λ prev.
                          after condvar _
                            (option-Keeps condvar prev (take_all-Ok has calm w head)
                              (take_some-Ok has calm w head tail front n))
                            λ o r'' round. continue-Ok r _ o r'' round λ w' k'.
                              unpark_loop-Ok f {r = holding r 1 w'.signals} also_wake n (some front)
                                w' one (ground (arith, fewer)) (λ e. cc) refl refl calm k'))

  -- Who enters `unpark` with QUEUE_LOCKED has given it back when it returns.
  pub unpark-Ok :
      {r : Role} (w : Word) (also_wake : ℕ)
      → also_wake ≤ 1
      → r.queue ≡ 1
      → r.signals ≡ w.signals
      → Calm r
      → KnowsWord r w
      → Ok (EndsIn (released r)) (unpark g w also_wake) r
  unfolding unpark
  unpark-Ok w also_wake one has seen calm k =
      unpark_loop-Ok g.fuel also_wake 0 none w one (omega arith) (λ e. refl) has seen calm k

  pub link_queue_or_unpark-Ok :
      (f : ℕ) {r : Role} (w : Word)
      → r.queue ≡ 1
      → r.signals ≡ w.signals
      → Calm r
      → KnowsWord r w
      → Ok (EndsIn (released r)) (link_queue_or_unpark g f w) r
  unfolding link_queue_or_unpark
  link_queue_or_unpark-Ok zero w has seen calm k = Safe.halt tt
  link_queue_or_unpark-Ok (suc f) {r} w has seen calm k =
      assert-Keeps condvar _ _ _ (ground (arith, k.queue, has)) (
        if-Keeps condvar (ltb 0 w.signals)
          (λ some_signal. unpark-Ok w 0 (omega arith) has seen calm k)
          λ none_yet. neutral condvar _ (get_and_link_queue-Neutral g.fuel w.head) λ _.
            cas_word-Ok {r = r} w (without_lock w) _
              (λ k'. (0, 0, unlock_Shift w has k', Safe.ret refl))
              λ w' k'. (
                1,
                w'.signals,
                read_Shift w' has k',
                link_queue_or_unpark-Ok f {r = holding r 1 w'.signals} w' refl refl calm
                    (read_Knows w' has k'),
              ))
