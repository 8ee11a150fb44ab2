-- ===== src/Condvar/Notifying.antt =====
-- Notifying keeps to the roles: who returns from it owns what it has owned before.
use usync.Prelude.{ℕ, zero, suc, ◌+◌, ◌≤◌, false, not, ◌≡◌, ◌≢◌, refl, ◌==◌, sym, subst, ◌∙◌, arith}
use usync.Prog.Safe.{Safe}
use usync.Shared.{Config}
use usync.Shared.Protocol.{after, if-Keeps}
use usync.Condvar.{Word, Code, init, is_empty}
use usync.Condvar.Notify.{with_lock, notify_one_slow, notify_one, notify_all_slow, notify_all}
use usync.Condvar.Roles.{Role, IsWord, Ok, condvar}
use usync.Condvar.Rules.{KnowsWord, Shift, holding, load_word-Ok, cas_word-Ok}
use usync.Condvar.Requeue.{Calm, EndsIn, empty_Shift, unpark_waiters-Ok}
use usync.Condvar.Unpark.{unpark-Ok}

-- A thread that has nothing of the condition variable.
pub record Free (r : Role) : Type 0 where
  pub calm : Calm r
  pub queue : r.queue ≡ 0
  pub signals : r.signals ≡ 0

-- A change of the word by such a thread: it counts a signal, or does nothing.
add_Shift :
    {r : Role} (w : Word) (n : ℕ)
    → Free r
    → KnowsWord r w
    → w.head ≢ 0
    → w.signals ≤ n
    → n ≤ 7
    → Shift r w 0 0 (record w { signals = n })
add_Shift w n free k ne more le = record {
  queue = omega (arith, free.queue);
  signals = omega arith;
  owned = omega arith;
  kept = λ other. more;
  word = record { signals = le; no_signal = λ e. absurd (ne e); no_lock = k.word.no_lock };
}

pub still_Shift : {r : Role} (w : Word) → Free r → KnowsWord r w → Shift r w 0 0 w
still_Shift w free k = record {
  queue = omega (arith, free.queue);
  signals = omega arith;
  owned = omega arith;
  kept = λ other. omega arith;
  word = k.word;
}

lock_Shift :
    {r : Role} (w : Word)
    → Free r
    → KnowsWord r w
    → w.head ≢ 0
    → w.queue_locked ≡ false
    → Shift r w 1 w.signals (with_lock w)
lock_Shift w free k ne open_word = record {
  queue = ground (arith, free.queue, open_word);
  signals = omega arith;
  owned = omega (arith, k.word.signals);
  kept = λ other. omega arith;
  word = record {
    signals = k.word.signals;
    no_signal = k.word.no_signal;
    no_lock = λ e. absurd (ne e);
  };
}

locked_Knows :
    {r : Role} (w : Word)
    → KnowsWord r w
    → w.head ≢ 0
    → KnowsWord (holding r 1 w.signals) (with_lock w)
locked_Knows w k ne = record {
  queue = omega arith;
  signals = omega arith;
  owned = omega (arith, k.word.signals);
  word = record {
    signals = k.word.signals;
    no_signal = k.word.no_signal;
    no_lock = λ e. absurd (ne e);
  };
}

-- A word that is not EMPTY has a waiter at its head.
waiting : (w : Word) → IsWord w → is_empty w ≡ false → w.head ≢ 0
waiting w ok some_waiter e = ground (arith, ok.no_signal e, ok.no_lock e, some_waiter)

pub still : {r : Role} → Free r → holding r 0 0 ≡ r
still {r} free =
    λ i. record { locks = r.locks; queue = sym free.queue i; signals = sym free.signals i }

pub still-Ok :
    {A : Type 0} {Q : A → Role → Type 0} {p : Code A} {r : Role}
    → Free r
    → Ok Q p r
    → Ok Q p (holding r 0 0)
still-Ok {Q} {p} free ok = subst (λ x. Ok Q p x) (sym (still free)) ok

module _ (g : Config) where
  notify_one_slow-Ok :
      (f : ℕ) {r : Role} (w : Word)
      → Free r
      → KnowsWord r w
      → Ok (EndsIn r) (notify_one_slow g f w) r
  unfolding notify_one_slow
  notify_one_slow-Ok zero w free k = Safe.halt tt
  notify_one_slow-Ok (suc f) {r} w free k =
      if-Keeps condvar (is_empty w) (λ _. Safe.ret refl)
        λ some_waiter.
          let ne = waiting w k.word some_waiter in
          if-Keeps condvar (not w.queue_locked)
            (λ unlocked.
              cas_word-Ok {r = r} w (with_lock w) _
                (λ k'. (
                  1,
                  w.signals,
                  lock_Shift w free k' ne (ground (arith, unlocked)),
                  after condvar _
                      (unpark-Ok g {r = holding r 1 w.signals} (with_lock w) 1 (omega arith) refl
                        refl free.calm (locked_Knows w k' ne))
                      λ _ r' e. Safe.ret (e ∙ still free),
                ))
                λ w' k'.
                  (0, 0, still_Shift w' free k', still-Ok free (notify_one_slow-Ok f w' free k')))
            λ _.
              if-Keeps condvar (w.signals == 7) (λ _. Safe.ret refl)
                λ room.
                  cas_word-Ok {r = r} w (record w { signals = w.signals + 1 }) _
                    (λ k'. (
                      0,
                      0,
                      add_Shift w (w.signals + 1) free k' ne (omega arith)
                          (ground (arith, room, k.word.signals)),
                      Safe.ret (still free),
                    ))
                    λ w' k'. (
                      0,
                      0,
                      still_Shift w' free k',
                      still-Ok free (notify_one_slow-Ok f w' free k'),
                    )

  pub notify_one-Ok : {r : Role} → Free r → Ok (EndsIn r) (notify_one g) r
  unfolding notify_one
  notify_one-Ok {r} free = load_word-Ok {r = r} _ λ w k. (
    0,
    0,
    still_Shift w free k,
    still-Ok free (
        if-Keeps condvar (is_empty w) (λ _. Safe.ret refl) λ _. notify_one_slow-Ok g.fuel w free k),
  )

  notify_all_slow-Ok :
      (f : ℕ) {r : Role} (w : Word)
      → Free r
      → KnowsWord r w
      → Ok (EndsIn r) (notify_all_slow g f w) r
  unfolding notify_all_slow
  notify_all_slow-Ok zero w free k = Safe.halt tt
  notify_all_slow-Ok (suc f) {r} w free k =
      if-Keeps condvar (is_empty w) (λ _. Safe.ret refl)
        λ some_waiter.
          let ne = waiting w k.word some_waiter in
          if-Keeps condvar (not w.queue_locked)
            (λ unlocked.
              cas_word-Ok {r = r} w init _
                (λ k'. (
                  0,
                  0,
                  empty_Shift w (ground (arith, unlocked, free.queue)),
                  still-Ok free
                      (after condvar _ (unpark_waiters-Ok g w ne free.calm) λ _ r' e. Safe.ret e),
                ))
                λ w' k'.
                  (0, 0, still_Shift w' free k', still-Ok free (notify_all_slow-Ok f w' free k')))
            λ _.
              if-Keeps condvar (w.signals == 7) (λ _. Safe.ret refl)
                λ room.
                  cas_word-Ok {r = r} w (record w { signals = 7 }) _
                    (λ k'. (
                      0,
                      0,
                      add_Shift w 7 free k' ne k.word.signals (omega arith),
                      Safe.ret (still free),
                    ))
                    λ w' k'. (
                      0,
                      0,
                      still_Shift w' free k',
                      still-Ok free (notify_all_slow-Ok f w' free k'),
                    )

  pub notify_all-Ok : {r : Role} → Free r → Ok (EndsIn r) (notify_all g) r
  unfolding notify_all
  notify_all-Ok {r} free = load_word-Ok {r = r} _ λ w k. (
    0,
    0,
    still_Shift w free k,
    still-Ok free (
        if-Keeps condvar (is_empty w) (λ _. Safe.ret refl) λ _. notify_all_slow-Ok g.fuel w free k),
  )
