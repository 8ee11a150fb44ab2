-- ===== src/Shared/Queue/Linked.antt =====
-- src/shared/waiter.rs: what linking does to the queue, for the thread that holds QUEUE_LOCKED and
-- is alone with it.
use usync.Prelude.{
  Bool-cases, inr, ◌==◌, ◌+◌, ℕ, zero, suc, ◌≤◌, Option, none, some, List, [], ◌∷◌, ◌≡◌, ◌≢◌, refl,
  inl, length, update, ap, ◌∙◌, arith,
}
use usync.Prog.Solo.{resume, solo-bind}
use usync.Prog.{ret, solo, ◌>>=◌, access, expect}
use usync.Shared.{Waiter, Memory, with_waiter}
use usync.Shared.Queue.{link_loop, get_and_link_queue}

-- From waiter `w` on, the waiters `ws` follow by their `next`, and of all these only the last one
-- knows the tail, which is `t`.
abbrev pub Queue : (ℕ → Waiter) → ℕ → List ℕ → ℕ → Type 0
Queue heap w [] t = (heap w).tail ≡ some t
Queue heap w (v ∷ vs) t = ((heap w).tail ≡ none) × ((heap w).next ≡ some v) × Queue heap v vs t

abbrev pub set_prev : ℕ → Option ℕ → (ℕ → Waiter) → ℕ → Waiter
set_prev p x heap = update heap p (record (heap p) { prev = x })

-- The heap in which each of `ws` points back to its predecessor.
unfoldable pub link_back : ℕ → List ℕ → (ℕ → Waiter) → ℕ → Waiter
link_back w [] heap = heap
link_back w (v ∷ vs) heap = link_back v vs (set_prev v (some w) heap)

-- The memory after linking.
abbrev pub linked : {S : Type 0} → ℕ → List ℕ → ℕ → Memory S → Memory S
linked head [] t m = m
linked head (v ∷ vs) t m =
    with_waiter head (λ w. record w { tail = some t })
      (record m { heap = link_back head (v ∷ vs) m.heap })

-- The waiters of `ws` in front of `found`, the last one first.
abbrev pub onto : List ℕ → List ℕ → List ℕ
onto [] found = found
onto (v ∷ vs) found = onto vs (v ∷ found)

set_prev-next :
    (heap : ℕ → Waiter) (p w : ℕ) (x : Option ℕ) → (set_prev p x heap w).next ≡ (heap w).next
set_prev-next heap p w x = ground arith

set_prev-tail :
    (heap : ℕ → Waiter) (p w : ℕ) (x : Option ℕ) → (set_prev p x heap w).tail ≡ (heap w).tail
set_prev-tail heap p w x = ground arith

-- A queue is one whatever its `prev` pointers are.
set_prev-Queue :
    (heap : ℕ → Waiter) (p : ℕ) (x : Option ℕ) (w : ℕ) (ws : List ℕ) (t : ℕ)
    → Queue heap w ws t
    → Queue (set_prev p x heap) w ws t
set_prev-Queue heap p x w [] t q = rw (set_prev-tail heap p w x) q
set_prev-Queue heap p x w (v ∷ vs) t (no_tail, next, q) = (
  rw (set_prev-tail heap p w x) no_tail,
  rw (set_prev-next heap p w x) next,
  set_prev-Queue heap p x v vs t q,
)

module _ {S : Type 0} (head t : ℕ) where
  abbrev cached : Memory S → Memory S
  cached m = with_waiter head (λ w. record w { tail = some t }) m

  link_loop_lem :
      (f current v : ℕ) (vs found : List ℕ) (m : Memory S)
      → length vs ≤ f
      → (m.heap current).next ≡ some v
      → Queue m.heap v vs t
      → solo (link_loop (suc f) head current found) m ≡ (
        cached (record m { heap = link_back current (v ∷ vs) m.heap }),
        inl (t, onto (v ∷ vs) found),
      )
  unfolding link_loop solo ◌>>=◌ access expect link_back
  link_loop_lem f current v [] found m le next q =
      let last : (set_prev v (some current) m.heap v).tail ≡ some t =
        rw (set_prev-tail m.heap v v (some current)) q in
      rw (next, solo, ◌>>=◌, last) refl
  link_loop_lem (suc f) current v (u ∷ us) found m le next (no_tail, next', q) =
      let heap = set_prev v (some current) m.heap in
      let inner : (heap v).tail ≡ none = rw (set_prev-tail m.heap v v (some current)) no_tail in
      let follows : (heap v).next ≡ some u = rw (set_prev-next m.heap v v (some current)) next' in
      rw (next, solo, ◌>>=◌, inner)
        (link_loop_lem f v u us (v ∷ found) (record m { heap = heap }) (omega arith) follows
          (set_prev-Queue m.heap v (some current) u us t q))
  link_loop_lem zero current v (u ∷ us) found m le next q = absurd (omega arith)

-- Alone with a queue in which only the last waiter knows the tail, and on fuel for its length,
-- `get_and_link_queue` returns the head, that tail and every waiter behind the head, last one first;
-- it points each of them back to its predecessor, caches the tail at the head, and changes nothing
-- else.
pub get_and_link_queue_lem :
    {S : Type 0} (fuel p : ℕ) (ws : List ℕ) (t : ℕ) (m : Memory S)
    → length ws ≤ fuel
    → Queue m.heap (suc p) ws t
    → solo (get_and_link_queue fuel (suc p)) m ≡ (linked (suc p) ws t m, inl (suc p, t, onto ws []))
unfolding get_and_link_queue solo ◌>>=◌ access expect resume
get_and_link_queue_lem fuel p [] t m le tail = rw (tail, solo, ◌>>=◌) refl
get_and_link_queue_lem zero p (v ∷ vs) t m le q = absurd (omega arith)
get_and_link_queue_lem (suc f) p (v ∷ vs) t m le (no_tail, next, q) =
    rw (no_tail, solo, ◌>>=◌)
      (solo-bind (link_loop (suc f) (suc p) (suc p) []) (λ (t, found). ret (suc p, t, found)) m
        ∙ ap (resume (λ (t, found). ret (suc p, t, found)))
            (link_loop_lem (suc p) t f (suc p) v vs [] m (omega arith) next q))

-- A queue that is linked already.
linked_again :
    {S : Type 0} (fuel p : ℕ) (ws : List ℕ) (t : ℕ) (m : Memory S)
    → Queue m.heap (suc p) ws t
    → solo (get_and_link_queue fuel (suc p)) (linked (suc p) ws t m)
      ≡ (linked (suc p) ws t m, inl (suc p, t, []))
unfolding get_and_link_queue solo ◌>>=◌ access expect
linked_again fuel p [] t m tail = rw (tail, solo, ◌>>=◌) refl
linked_again fuel p (v ∷ vs) t m q =
    let known : ((linked (suc p) (v ∷ vs) t m).heap (suc p)).tail ≡ some t = ground arith in
    rw (known, solo, ◌>>=◌) refl

-- Called twice on a queue, `get_and_link_queue` links it the first time and finds the cached tail
-- the second time: the second call returns at once with the same head and tail, discovers no
-- waiter, and changes nothing. This is for the thread that is alone with the queue, with fuel for
-- its length.
pub get_and_link_queue_again :
    {S : Type 0} (fuel p : ℕ) (ws : List ℕ) (t : ℕ) (m : Memory S)
    → length ws ≤ fuel
    → Queue m.heap (suc p) ws t
    → solo (get_and_link_queue fuel (suc p) >>= λ _. get_and_link_queue fuel (suc p)) m
      ≡ (linked (suc p) ws t m, inl (suc p, t, []))
unfolding resume solo
get_and_link_queue_again fuel p ws t m le q =
    solo-bind (get_and_link_queue fuel (suc p)) (λ _. get_and_link_queue fuel (suc p)) m
    ∙ ap (resume (λ _. get_and_link_queue fuel (suc p))) (get_and_link_queue_lem fuel p ws t m le q)
    ∙ linked_again fuel p ws t m q

-- `v` is none of `ws`; and no waiter of `ws` occurs twice.
abbrev pub Apart : ℕ → List ℕ → Type 0
Apart v [] = Unit
Apart v (w ∷ ws) = (v ≢ w) × Apart v ws

abbrev pub Distinct : List ℕ → Type 0
Distinct [] = Unit
Distinct (w ∷ ws) = Apart w ws × Distinct ws

-- Each of `ws` points back to the one before it, the first one to `w`.
abbrev pub PointsBack : (ℕ → Waiter) → ℕ → List ℕ → Type 0
PointsBack heap w [] = Unit
PointsBack heap w (v ∷ vs) = ((heap v).prev ≡ some w) × PointsBack heap v vs

link_back_other :
    (heap : ℕ → Waiter) (w x : ℕ) (ws : List ℕ) → Apart x ws → link_back w ws heap x ≡ heap x
unfolding link_back
link_back_other heap w x [] apart = refl
link_back_other heap w x (v ∷ vs) (ne, apart) =
    link_back_other (set_prev v (some w) heap) v x vs apart ∙ ground (arith, ne)

link_back-PointsBack :
    (heap : ℕ → Waiter) (w : ℕ) (ws : List ℕ) → Distinct ws → PointsBack (link_back w ws heap) w ws
unfolding link_back
link_back-PointsBack heap w [] d = tt
link_back-PointsBack heap w (v ∷ vs) (apart, d) = (
  ap (λ (x : Waiter). x.prev) (link_back_other (set_prev v (some w) heap) v v vs apart)
      ∙ ground arith,
  link_back-PointsBack (set_prev v (some w) heap) v vs d,
)

PointsBack-tail :
    (heap : ℕ → Waiter) (h t w : ℕ) (ws : List ℕ)
    → PointsBack heap w ws
    → PointsBack (update heap h (record (heap h) { tail = some t })) w ws
PointsBack-tail heap h t w [] back = tt
PointsBack-tail heap h t w (v ∷ vs) (prev, back) =
    (ground (arith, prev), PointsBack-tail heap h t v vs back)

-- In the memory after linking, each waiter of a queue without repetitions points back.
linked-PointsBack :
    {S : Type 0} (head : ℕ) (ws : List ℕ) (t : ℕ) (m : Memory S)
    → Distinct ws
    → PointsBack (linked head ws t m).heap head ws
linked-PointsBack head [] t m d = tt
linked-PointsBack head (v ∷ vs) t m d =
    PointsBack-tail (link_back head (v ∷ vs) m.heap) head t head (v ∷ vs)
      (link_back-PointsBack m.heap head (v ∷ vs) d)

-- After `get_and_link_queue` each waiter of a queue without repetitions points back to the one
-- before it, the first one behind the head to the head, which is how the queue is walked from its
-- tail. This is for the thread that is alone with the queue, with fuel for its length.
pub get_and_link_queue-PointsBack :
    {S : Type 0} (fuel p : ℕ) (ws : List ℕ) (t : ℕ) (m : Memory S)
    → length ws ≤ fuel
    → Queue m.heap (suc p) ws t
    → Distinct ws
    → PointsBack (solo (get_and_link_queue fuel (suc p)) m).0.heap (suc p) ws
get_and_link_queue-PointsBack fuel p ws t m le q d =
    rw (get_and_link_queue_lem fuel p ws t m le q) (linked-PointsBack (suc p) ws t m d)

pub length-onto : (ws found : List ℕ) → length (onto ws found) ≡ length ws + length found
length-onto [] found = omega arith
length-onto (v ∷ vs) found = omega (arith, length-onto vs (v ∷ found))

-- Linking leaves the counters alone.
counter-link_back :
    (w : ℕ) (ws : List ℕ) (heap : ℕ → Waiter) (x : ℕ)
    → (link_back w ws heap x).counter ≡ (heap x).counter
unfolding link_back
counter-link_back w [] heap x = refl
counter-link_back w (v ∷ vs) heap x = counter-link_back v vs (set_prev v _ heap) x ∙ ground arith

pub counter-linked :
    {S : Type 0} (h : ℕ) (ws : List ℕ) (t : ℕ) (m : Memory S) (x : ℕ)
    → ((linked h ws t m).heap x).counter ≡ (m.heap x).counter
counter-linked h [] t m x = refl
counter-linked h (v ∷ vs) t m x = elim (Bool-cases (h == x)) [
  | inl here ↦
      let e : h ≡ x = ground arith in
      rw here (counter-link_back h (v ∷ vs) m.heap h ∙ ap (λ (y : ℕ). (m.heap y).counter) e)
  | inr other ↦ rw other (counter-link_back h (v ∷ vs) m.heap x)
]

pub word-linked :
    {S : Type 0} (h : ℕ) (ws : List ℕ) (t : ℕ) (m : Memory S) → (linked h ws t m).word ≡ m.word
word-linked h [] t m = refl
word-linked h (v ∷ vs) t m = refl
