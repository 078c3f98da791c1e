-- ===== src/Channel.antt =====
-- The bounded queues of the crates embassy-sync (`Channel`) and heapless (`Deque`), which the
-- firmware uses and does not implement: an interface with the documented behaviour that the code
-- relies on, and a list that meets it.
use sand_os.Base.{
  ℕ, ◌≤◌, ◌<◌, ◌≡◌, refl, arith, List, [], ◌∷◌, ◌++◌, Option, none, some, Bool, true, false, ltb,
  if◌then◌else◌, length,
}

pub record BoundedQueue (A : Type 0) (capacity : ℕ) : Type 1 where
  pub Queue : Type 0
  -- The elements, oldest first.
  pub contents : Queue → List A
  pub empty : Queue
  -- Non-blocking: the Boolean says whether the element was taken.
  pub try_send : A → Queue → Bool × Queue
  pub try_receive : Queue → Option A × Queue
  pub len : Queue → ℕ
  pub contents-empty : contents empty ≡ []
  pub len-contents : (q : Queue) → len q ≡ length (contents q)
  pub try_send_room :
      (a : A) (q : Queue)
      → length (contents q) < capacity
      → ((try_send a q).0 ≡ true) × (contents (try_send a q).1 ≡ contents q ++ (a ∷ []))
  pub try_send_full :
      (a : A) (q : Queue) → capacity ≤ length (contents q) → try_send a q ≡ (false, q)
  pub try_receive_some :
      (a : A) (rest : List A) (q : Queue)
      → contents q ≡ a ∷ rest
      → ((try_receive q).0 ≡ some a) × (contents (try_receive q).1 ≡ rest)
  pub try_receive_none : (q : Queue) → contents q ≡ [] → try_receive q ≡ (none, q)

module _ {A : Type 0} where
  abbrev pub pop_front : List A → Option A × List A
  pop_front [] = (none, [])
  pop_front (a ∷ rest) = (some a, rest)

  pub pop_front-some :
      (a : A) (rest q : List A)
      → q ≡ a ∷ rest
      → ((pop_front q).0 ≡ some a) × ((pop_front q).1 ≡ rest)
  pop_front-some a rest [] e = cc
  pop_front-some a rest (b ∷ q) e = (cc, cc)

  pub pop_front-none : (q : List A) → q ≡ [] → pop_front q ≡ (none, q)
  pop_front-none [] e = refl
  pop_front-none (b ∷ q) e = cc

  module _ (capacity : ℕ) where
    abbrev pub push_back : A → List A → Bool × List A
    push_back a q = if ltb (length q) capacity then (true, q ++ (a ∷ [])) else (false, q)

    pub push_back_room :
        (a : A) (q : List A)
        → length q < capacity
        → ((push_back a q).0 ≡ true) × ((push_back a q).1 ≡ q ++ (a ∷ []))
    push_back_room a q h = ground arith

    pub push_back_full : (a : A) (q : List A) → capacity ≤ length q → push_back a q ≡ (false, q)
    push_back_full a q h = ground arith

-- A list of at most `capacity` elements meets the interface.
abbrev pub list_queue : (A : Type 0) (capacity : ℕ) → BoundedQueue A capacity
list_queue A capacity = record {
  Queue = List A;
  contents = λ q. q;
  empty = [];
  try_send = push_back capacity;
  try_receive = pop_front;
  len = length;
  contents-empty = refl;
  len-contents = λ q. refl;
  try_send_room = push_back_room capacity;
  try_send_full = push_back_full capacity;
  try_receive_some = pop_front-some;
  try_receive_none = pop_front-none;
}
