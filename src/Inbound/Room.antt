-- ===== src/Inbound/Room.antt =====
-- The duplicate window of room broadcasts in crates/privchat-sdk/src/lib.rs.
use privchat_sdk.Base.{
  ltb, if◌then◌else◌, if_elim, suc, ◌==◌, ◌<◌, ◌⊎◌, Option, none, Bool-cases, length, length-append,
  ℕ, ◌+◌, ◌≤◌, ◌≡◌, refl, ◌≢◌, inl, inr, true, false, some, List, [], ◌∷◌, ◌++◌, arith,
}
use privchat_sdk.Inbound.{Seen, seen_id, room_dedup_window, remember_id, room_message_is_duplicate}

length-remember_id :
    (id : ℕ) (xs : List ℕ)
    → length xs ≤ room_dedup_window
    → length (remember_id id xs) ≤ room_dedup_window
unfolding remember_id
length-remember_id id [] h = omega arith
length-remember_id id (x ∷ xs) h = elim (Bool-cases (ltb room_dedup_window (length (x ∷ xs) + 1))) [
  | inl long ↦ rw long (omega (arith, length-append xs (id ∷ [])))
  | inr short ↦ rw short (ground (arith, length-append xs (id ∷ [])))
]

-- An id of a window that at most so many ids came after.
abbrev Within : ℕ → ℕ → List ℕ → Type 0
Within id n [] = ⊥
Within id n (x ∷ xs) = ((x ≡ id) × (length xs ≤ n)) ⊎ Within id n xs

Within-seen : (id n : ℕ) (xs : List ℕ) → Within id n xs → seen_id id xs ≡ true
unfolding seen_id
Within-seen id n [] h = absurd h
Within-seen id n (x ∷ xs) (inl (same, few)) = ground arith
Within-seen id n (x ∷ xs) (inr h) = ground (arith, Within-seen id n xs h)

Within-append : (id j n : ℕ) (xs : List ℕ) → Within id n xs → Within id (n + 1) (xs ++ (j ∷ []))
Within-append id j n [] h = absurd h
Within-append id j n (x ∷ xs) (inl (same, few)) =
    inl (same, omega (arith, few, length-append xs (j ∷ [])))
Within-append id j n (x ∷ xs) (inr h) = inr (Within-append id j n xs h)

Within-last : (id : ℕ) (xs : List ℕ) → Within id 0 (xs ++ (id ∷ []))
Within-last id [] = inl (refl, omega arith)
Within-last id (x ∷ xs) = inr (Within-last id xs)

Within-mono : (id n m : ℕ) (xs : List ℕ) → n ≤ m → Within id n xs → Within id m xs
Within-mono id n m [] le h = absurd h
Within-mono id n m (x ∷ xs) le (inl (same, few)) = inl (same, omega arith)
Within-mono id n m (x ∷ xs) le (inr h) = inr (Within-mono id n m xs le h)

Within-drop : (id n x : ℕ) (xs : List ℕ) → n < length xs → Within id n (x ∷ xs) → Within id n xs
Within-drop id n x xs long (inl (same, few)) = absurd (omega arith)
Within-drop id n x xs long (inr h) = h

remember_id-last : (id : ℕ) (xs : List ℕ) → Within id 0 (remember_id id xs)
unfolding remember_id
remember_id-last id [] = inl (refl, omega arith)
remember_id-last id (x ∷ xs) =
    if_elim (Within id 0) (ltb room_dedup_window (length (x ∷ xs) + 1)) (λ long. Within-last id xs)
      (λ short. Within-last id (x ∷ xs))

remember_id-Within :
    (id j n : ℕ) (xs : List ℕ)
    → n + 1 < room_dedup_window
    → Within id n xs
    → Within id (n + 1) (remember_id j xs)
unfolding remember_id
remember_id-Within id j n [] small h = absurd h
remember_id-Within id j n (x ∷ xs) small h =
    if_elim (Within id (n + 1)) (ltb room_dedup_window (length (x ∷ xs) + 1))
      (λ long. Within-append id j n xs (Within-drop id n x xs (ground arith) h))
      (λ short. Within-append id j n (x ∷ xs) h)

-- Broadcasts, each of a channel and with an id or none, looked at in their order.
pub receive_all : List (ℕ × Option ℕ) → Seen → Seen
receive_all [] seen = seen
receive_all (b ∷ bs) seen = receive_all bs (room_message_is_duplicate seen b.0 b.1).1

-- How many of them are of a channel.
unfoldable pub heard : ℕ → List (ℕ × Option ℕ) → ℕ
heard channel_id [] = 0
heard channel_id (b ∷ bs) =
    if b.0 == channel_id then suc (heard channel_id bs) else heard channel_id bs

receive-elsewhere :
    (channel_id c : ℕ) (o : Option ℕ) (seen : Seen)
    → (c == channel_id) ≡ false
    → (room_message_is_duplicate seen c o).1 channel_id ≡ seen channel_id
unfolding room_message_is_duplicate
receive-elsewhere channel_id c none seen apart = refl
receive-elsewhere channel_id c (some j) seen apart = elim (Bool-cases (seen_id j (seen c))) [
  | inl old ↦ rw old refl
  | inr fresh ↦ let there : (channel_id == c) ≡ false = ground arith in rw (fresh, there) refl
]

-- What a broadcast of the channel itself leaves of its window.
receive-here :
    (P : List ℕ → Type 0) (channel_id : ℕ) (o : Option ℕ) (seen : Seen)
    → P (seen channel_id)
    → ((j : ℕ) → P (remember_id j (seen channel_id)))
    → P ((room_message_is_duplicate seen channel_id o).1 channel_id)
unfolding room_message_is_duplicate
receive-here P channel_id none seen kept added = kept
receive-here P channel_id (some j) seen kept added =
    elim (Bool-cases (seen_id j (seen channel_id))) [
      | inl old ↦ rw old kept
      | inr fresh ↦
          let here : (channel_id == channel_id) ≡ true = ground arith in rw (fresh, here) (added j)
    ]

receive_all-Within :
    (id n channel_id : ℕ) (bs : List (ℕ × Option ℕ)) (seen : Seen)
    → n + heard channel_id bs < room_dedup_window
    → Within id n (seen channel_id)
    → seen_id id (receive_all bs seen channel_id) ≡ true
unfolding receive_all heard
receive_all-Within id n channel_id [] seen small h = Within-seen id n (seen channel_id) h
receive_all-Within id n channel_id ((c, o) ∷ bs) seen small h =
    elim (Bool-cases (c == channel_id)) [
      | inl here ↦
          let same : c ≡ channel_id = ground arith in
          let room : n + suc (heard channel_id bs) < room_dedup_window = rw here at small in
          let first : n + 1 < room_dedup_window = omega arith in
          let next : Within id (n + 1)
              ((room_message_is_duplicate seen channel_id o).1 channel_id) =
            receive-here (Within id (n + 1)) channel_id o seen
              (Within-mono id n (n + 1) (seen channel_id) (omega arith) h)
              (λ j. remember_id-Within id j n (seen channel_id) first h) in
          receive_all-Within id (n + 1) channel_id bs (room_message_is_duplicate seen c o).1
            (omega arith) (rw same next)
      | inr there ↦
          let room : n + heard channel_id bs < room_dedup_window = rw there at small in
          receive_all-Within id n channel_id bs (room_message_is_duplicate seen c o).1 room
            (rw (receive-elsewhere channel_id c o seen there) h)
    ]

receive_all-bounded :
    (channel_id : ℕ) (bs : List (ℕ × Option ℕ)) (seen : Seen)
    → length (seen channel_id) ≤ room_dedup_window
    → length (receive_all bs seen channel_id) ≤ room_dedup_window
unfolding receive_all
receive_all-bounded channel_id [] seen h = h
receive_all-bounded channel_id ((c, o) ∷ bs) seen h = elim (Bool-cases (c == channel_id)) [
  | inl here ↦
      let same : c ≡ channel_id = ground arith in
      let next =
        receive-here (λ (w : List ℕ). length w ≤ room_dedup_window) channel_id o seen h
          (λ j. length-remember_id j (seen channel_id) h) in
      receive_all-bounded channel_id bs (room_message_is_duplicate seen c o).1 (rw same next)
  | inr there ↦
      receive_all-bounded channel_id bs (room_message_is_duplicate seen c o).1
        (rw (receive-elsewhere channel_id c o seen there) h)
]

-- Once a broadcast with an id was let through in a channel, one with the same id is dropped, and changes
-- nothing, after any further broadcasts of which at most 255 are of that channel, whatever their ids are and
-- however many go to other channels; letting it through changed no other channel; and a window within
-- its bound of 256 ids is within it after all of them.
pub room_message_is_duplicate-repeat :
    (seen : Seen) (channel_id other id : ℕ) (bs : List (ℕ × Option ℕ))
    → (room_message_is_duplicate seen channel_id (some id)).0 ≡ false
    → heard channel_id bs < room_dedup_window
    → length (seen channel_id) ≤ room_dedup_window
    → other ≢ channel_id
    → let first = (room_message_is_duplicate seen channel_id (some id)).1 in
      let after = receive_all bs first in
      (room_message_is_duplicate after channel_id (some id) ≡ (true, after))
      × (first other ≡ seen other)
      × (length (after channel_id) ≤ room_dedup_window)
unfolding room_message_is_duplicate
room_message_is_duplicate-repeat seen channel_id other id bs let_through few bounded apart =
    let first = (room_message_is_duplicate seen channel_id (some id)).1 in
    let fresh : seen_id id (seen channel_id) ≡ false = ground arith in
    let here : (channel_id == channel_id) ≡ true = ground arith in
    let noted : first channel_id ≡ remember_id id (seen channel_id) = rw (fresh, here) refl in
    let found : seen_id id (receive_all bs first channel_id) ≡ true =
      receive_all-Within id 0 channel_id bs first (omega arith)
        (rw noted (remember_id-last id (seen channel_id))) in
    (
      rw found refl,
      receive-elsewhere other channel_id (some id) seen (ground arith),
      receive_all-bounded channel_id bs first
          (rw noted (length-remember_id id (seen channel_id) bounded)),
    )
