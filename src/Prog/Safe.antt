-- ===== src/Prog/Safe.antt =====
-- Reasoning about one thread under interference. A thread has a role, which says what part of the
-- shared state it owns; every access is allowed to see what the role guarantees, and has to keep to
-- the transitions that the invariant over all roles survives.
use usync.Prelude.{
  ℕ, ◌<◌, Bool, List, [], ◌∷◌, ◌++◌, ◌≡◌, refl, inl, inr, ◌==◌, ltb, update, update_same,
  Bool-cases, arith,
}
use usync.Prog.{Reason, Prog, ◌>>=◌, access, System, after, rest, turn, run}

module _ {M Role : Type 0} (Sees : Role → M → Type 0) (Moves : Role → M → Role → M → Type 0)
    (Allowed : Reason → Type 0) where
  -- Every access of the program, at whatever memory its role can see, is a move into a role that
  -- the rest of the program continues with; the program ends with `Q`, or halts for an allowed
  -- reason.
  pub data Safe {A : Type 0} (Q : A → Role → Type 0) : Prog M A → Role → Type 0 where
    ret : {a : A} {r : Role} → Q a r → Safe Q (Prog.ret a) r
    act :
        {e : Bool → M → M} {k : Bool → M → Prog M A} {r : Role}
        (next : (c : Bool) (m : M) → Sees r m → Role)
        → ((c : Bool) (m : M) (s : Sees r m) → Moves r m (next c m s) (e c m))
        → ((c : Bool) (m : M) (s : Sees r m) → Safe Q (k c m) (next c m s))
        → Safe Q (Prog.act e k) r
    halt : {w : Reason} {r : Role} → Allowed w → Safe Q (Prog.halt w) r

  -- One access, in front of the rest.
  pub access-Safe :
      {A B : Type 0} {Q : B → Role → Type 0} (e : Bool → M → M) (v : Bool → M → A)
      (f : A → Prog M B) {r : Role}
      → ((c : Bool) (m : M) → Sees r m → (r' : Role) × Moves r m r' (e c m) × Safe Q (f (v c m)) r')
      → Safe Q (access e v >>= f) r
  unfolding access ◌>>=◌
  access-Safe e v f h = act (λ c m s. (h c m s).0) (λ c m s. (h c m s).1) (λ c m s. (h c m s).2)

  pub bind-Safe :
      {A B : Type 0} {Q : A → Role → Type 0} {R : B → Role → Type 0} (f : A → Prog M B)
      {p : Prog M A} {r : Role}
      → Safe Q p r
      → ((a : A) (r' : Role) → Q a r' → Safe R (f a) r')
      → Safe R (p >>= f) r
  unfolding ◌>>=◌
  bind-Safe f (ret h) next = next _ _ h
  bind-Safe f (act r' moves later) next = act r' moves (λ c m s. bind-Safe f (later c m s) next)
  bind-Safe f (halt h) next = halt h

  -- What a thread that makes no further access has come to.
  abbrev pub Outcome : {A : Type 0} → (A → Role → Type 0) → Prog M A → Role → Type 0
  Outcome Q (Prog.ret a) r = Q a r
  Outcome Q (Prog.act e k) r = Unit
  Outcome Q (Prog.halt w) r = Allowed w

  pub Safe-Outcome :
      {A : Type 0} {Q : A → Role → Type 0} {p : Prog M A} {r : Role} → Safe Q p r → Outcome Q p r
  Safe-Outcome (ret h) = h
  Safe-Outcome (act next moves safe) = tt
  Safe-Outcome (halt h) = h

-- Soundness: an invariant over the memory and the roles of `n` threads that shows each role what
-- it sees, and that the moves keep, holds after every schedule of safe threads.
module _ {M Role : Type 0} (Sees : Role → M → Type 0) (Moves : Role → M → Role → M → Type 0)
    (Allowed : Reason → Type 0) (n : ℕ) (Inv : M → (ℕ → Role) → Type 0)
    (see : (m : M) (rs : ℕ → Role) (i : ℕ) → i < n → Inv m rs → Sees (rs i) m)
    (keep : (m : M) (rs : ℕ → Role) (i : ℕ) (m' : M) (r' : Role)
      → i < n
      → Inv m rs
      → Moves (rs i) m r' m'
      → Inv m' (update rs i r')) where
  pub record Sound {A : Type 0} (Q : A → Role → Type 0) (s : System M A) (rs : ℕ → Role)
      : Type 0 where
    pub counted : s.count ≡ n
    pub inv : Inv s.memory rs
    pub safe : (i : ℕ) → i < n → Safe Sees Moves Allowed Q (s.thread i) (rs i)

  -- One access of a safe thread, whose role is `r`.
  rest-Safe :
      {A : Type 0} {Q : A → Role → Type 0} (c : Bool) (m : M) (rs : ℕ → Role) (i : ℕ) {p : Prog M A}
      {r : Role}
      → i < n
      → Inv m rs
      → rs i ≡ r
      → Safe Sees Moves Allowed Q p r
      → (r' : Role) × Inv (after c m p) (update rs i r') × Safe Sees Moves Allowed Q (rest c m p) r'
  unfolding after rest
  rest-Safe c m rs i {r} lt inv e (ret h) = (r, rw (← e, update_same rs i) inv, ret h)
  rest-Safe c m rs i {r} lt inv e (act next moves safe) =
      let sees : Sees r m = rw (← e) (see m rs i lt inv) in
      (next c m sees, keep m rs i _ _ lt inv (rw e (moves c m sees)), safe c m sees)
  rest-Safe c m rs i {r} lt inv e (halt h) = (r, rw (← e, update_same rs i) inv, halt h)

  turn-Sound :
      {A : Type 0} {Q : A → Role → Type 0} (s : System M A) (rs : ℕ → Role) (i : ℕ) (c : Bool)
      → Sound Q s rs
      → (rs' : ℕ → Role) × Sound Q (turn s i c) rs'
  unfolding turn
  turn-Sound {Q} s rs i c h = elim (Bool-cases (ltb i s.count)) [
    | inr out ↦ (rs, rw out h)
    | inl there ↦
        let lt : i < n = ground (arith, h.counted) in
        let (r', inv, safe) = rest-Safe c s.memory rs i lt h.inv refl (h.safe i lt) in
        (
          update rs i r',
          rw there (record {
            counted = h.counted;
            inv = inv;
            safe = λ j below. elim (Bool-cases (i == j)) [
              | inl same ↦ rw same safe
              | inr other ↦ rw other (h.safe j below)
            ];
          }),
        )
  ]

  pub run-Sound :
      {A : Type 0} {Q : A → Role → Type 0} (s : System M A) (rs : ℕ → Role) (l : List (ℕ × Bool))
      → Sound Q s rs
      → (rs' : ℕ → Role) × Sound Q (run s l) rs'
  unfolding run
  run-Sound s rs [] h = (rs, h)
  run-Sound s rs ((i, c) ∷ l) h =
      let (rs', h') = turn-Sound s rs i c h in run-Sound (turn s i c) rs' l h'

pub run-append :
    {M A : Type 0} (s : System M A) (l l' : List (ℕ × Bool)) → run s (l ++ l') ≡ run (run s l) l'
unfolding run
run-append s [] l' = refl
run-append s ((i, c) ∷ l) l' = run-append (turn s i c) l l'
