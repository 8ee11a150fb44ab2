-- ===== src/Mutex/Lock.antt =====
-- Taking the lock exclusively keeps to the roles: who returns from `lock` owns the lock.
use usync.Prelude.{
  ℕ, zero, suc, Bool, true, false, ◌&&◌, not, Option, none, some, ◌≡◌, refl, if◌then◌else◌,
  match_option, ◌∙◌, arith,
}
use usync.Prog.{skip, ret}
use usync.Prog.Safe.{Safe}
use usync.Shared.{Config}
use usync.Shared.Spin.{SpinWait, fresh}
use usync.Shared.Parker.Neutral.{park-Neutral}
use usync.RwLock.State.{State}
use usync.RwLock.Wake.{Code}
use usync.RwLock.Lock.{
  try_lock_exclusive_loop, try_lock_exclusive_fast, try_lock_exclusive_assuming, try_lock,
  queue_word, try_queue, try_phase, lock_loop, lock_common, lock_exclusive, spin_on,
}
use usync.Mutex.Roles.{Role, outside, Shift, Ok, mutex}
use usync.Mutex.Rules.{fetch-Ok, cas_weak-Ok, cas-Ok, Shift-Knows}
use usync.Shared.Protocol.{after, neutral, load-Keeps, quiet, if-Keeps, option-Keeps, may-Keep}
use usync.Mutex.Wake.{EndsIn, released, link_queue_or_unpark-Ok}

abbrev pub owner : Role
owner = record { holds = 1; queue = 0; within = 0 }

abbrev pub queue_owner : Role
queue_owner = record { holds = 0; queue = 1; within = 0 }

-- What an attempt leaves: the lock is owned if the attempt says so.
abbrev pub Got : Bool → Role → Type 0
Got b r = r ≡ (if b then owner else outside)

abbrev MaybeGot : Option Bool → Role → Type 0
MaybeGot none r = r ≡ outside
MaybeGot (some b) r = Got b r

-- `none` says that the lock is owned.
abbrev Phase : Option State → Role → Type 0
Phase none r = r ≡ owner
Phase (some s) r = r ≡ outside

try_lock_exclusive_loop-Ok : (f : ℕ) (s : State) → Ok Got (try_lock_exclusive_loop f s) outside
unfolding try_lock_exclusive_loop
try_lock_exclusive_loop-Ok zero s = Safe.halt tt
try_lock_exclusive_loop-Ok (suc f) s =
    if-Keeps mutex s.locked (λ _. Safe.ret refl)
      λ free.
        cas_weak-Ok _ _ _
          (λ k w. (owner, refl, ground (arith, k.queued, k.no_reader), Safe.ret refl))
          λ s' k. try_lock_exclusive_loop-Ok f s'

module _ (g : Config) where
  -- An attempt to take the lock, on either kind of target.
  pub try_lock_exclusive_fast-Ok : Ok Got (try_lock_exclusive_fast g) outside
  unfolding try_lock_exclusive_fast
  try_lock_exclusive_fast-Ok =
      if-Keeps mutex g.x86
        (λ _. fetch-Ok _ _ λ s k w. (
          if s.locked then outside else owner,
          ground arith,
          ground (arith, k.queued, k.no_reader),
          Safe.ret (ground arith),
        ))
        λ _. cas-Ok _ _ _ (λ k w. (owner, refl, ground arith, Safe.ret refl)) λ s k. Safe.ret refl

  try_lock_exclusive_assuming-Ok : (s : State) → Ok Got (try_lock_exclusive_assuming g s) outside
  unfolding try_lock_exclusive_assuming
  try_lock_exclusive_assuming-Ok s =
      if-Keeps mutex g.x86 (λ _. try_lock_exclusive_fast-Ok)
        λ _. try_lock_exclusive_loop-Ok g.fuel s

  try_lock-Ok : (s : State) → Ok MaybeGot (try_lock g true s) outside
  unfolding try_lock
  try_lock-Ok s =
      if-Keeps mutex s.locked (λ _. Safe.ret refl)
        λ _. after mutex _ (try_lock_exclusive_assuming-Ok s) λ b r got. Safe.ret got

attempt-Ok :
    (s : State) (again : Code (Option State)) (t : Option Bool) (r : Role)
    → MaybeGot t r
    → Ok Phase again outside
    → Ok Phase (match_option t (ret (some s)) λ b. if b then ret none else again) r
attempt-Ok s again none r e h = Safe.ret e
attempt-Ok s again (some true) r e h = Safe.ret e
attempt-Ok s again (some false) r e h = rw e h

Got-Ok :
    (slow : Code (Unit {0})) (b : Bool) (r : Role)
    → Got b r
    → Ok (EndsIn owner) slow outside
    → Ok (EndsIn owner) (if b then skip else slow) r
Got-Ok slow true r e h = Safe.ret e
Got-Ok slow false r e h = rw e h

pub both-Ok :
    {A : Type 0} {Q : A → Role → Type 0} (b : Bool) {p q : Code A} {r r' : Role}
    → (b ≡ true → Ok Q p r)
    → (b ≡ false → Ok Q q r')
    → Ok Q (if b then p else q) (if b then r else r')
both-Ok true h k = h refl
both-Ok false h k = k refl

Phase-Ok :
    (slow : State → Code (Unit {0})) (t : Option State) (r : Role)
    → Phase t r
    → ((s : State) → Ok (EndsIn owner) (slow s) outside)
    → Ok (EndsIn owner) (match_option t skip slow) r
Phase-Ok slow none r e h = Safe.ret e
Phase-Ok slow (some s) r e h = rw e (h s)

module _ (g : Config) (self me : ℕ) where
  try_phase-Ok :
      (f : ℕ) (s : State) (spin : SpinWait) → Ok Phase (try_phase g self me f true s spin) outside
  unfolding try_phase
  try_phase-Ok zero s spin = Safe.halt tt
  try_phase-Ok (suc f) s spin =
      after mutex _ (try_lock-Ok g s)
        λ t r e. attempt-Ok s _ t r e (load-Keeps mutex _ λ s' k. try_phase-Ok f s' _)

  -- Queueing up takes QUEUE_LOCKED for a while at most.
  pub try_queue-Ok : {r : Role} (s : State) → r.queue ≡ 0 → Ok (EndsIn r) (try_queue g self me s) r
  unfolding try_queue
  try_queue-Ok {r} s has =
      quiet mutex _ _ _ (λ c m. (refl, refl))
        λ _.
          cas_weak-Ok _ _ _
            (λ k w.
              let took = s.queued && not s.queue_locked in
              let taken : Role = record r { queue = 1 } in
              let sh : Shift r s (if took then taken else r) (queue_word g self me s) =
                ground (arith, k.holds, k.queued, k.no_reader) in
              let e : released taken ≡ r = ground arith in
              (
                if took then taken else r,
                ground arith,
                sh,
                both-Ok took
                    (λ h.
                      after mutex _
                        (link_queue_or_unpark-Ok g self (queue_word g self me s) refl
                          (Shift-Knows k (rw h at sh)))
                        λ _ r' e'. Safe.ret (e' ∙ e))
                    λ h. Safe.ret refl,
              ))
            λ s' k. Safe.ret refl

  lock_loop-Ok :
      (f : ℕ) (s : State) (spin : SpinWait)
      → Ok (EndsIn owner) (lock_loop g self me f true s spin) outside
  unfolding lock_loop
  lock_loop-Ok zero s spin = Safe.halt tt
  lock_loop-Ok (suc f) s spin = after mutex _ (try_phase-Ok g.fuel s fresh) λ t r e.
      Phase-Ok _ t r e λ s'.
        if-Keeps mutex (spin_on g self me s' spin).1
          (λ _. load-Keeps mutex _ λ s'' k. lock_loop-Ok f s'' _)
          λ _. after mutex _ (try_queue-Ok s' refl) λ q r' e'. rw e' (
            option-Keeps mutex q
              (neutral mutex _ (park-Neutral g me none) λ woken.
                may-Keep mutex _ _ _ tt λ _. load-Keeps mutex _ λ s'' k. lock_loop-Ok f s'' _)
              λ s''. lock_loop-Ok f s'' _)

  lock_common-Ok : Ok (EndsIn owner) (lock_common g self me true) outside
  unfolding lock_common
  lock_common-Ok =
      quiet mutex _ _ _ (λ c m. (refl, refl))
        λ _.
          quiet mutex _ _ _ (λ c m. (refl, refl))
            λ _.
              quiet mutex _ _ _ (λ c m. (refl, refl))
                λ _. load-Keeps mutex _ λ s k. lock_loop-Ok g.fuel s fresh

  -- Whatever the other threads do meanwhile within the protocol of the mutex, a thread that owns
  -- nothing and returns from `lock_exclusive` owns the lock, and no assertion on the word fails on
  -- the way.
  pub lock_exclusive-Ok : Ok (EndsIn owner) (lock_exclusive g self me) outside
  unfolding lock_exclusive
  lock_exclusive-Ok =
      after mutex _ (try_lock_exclusive_fast-Ok g) λ got r e. Got-Ok _ got r e lock_common-Ok
