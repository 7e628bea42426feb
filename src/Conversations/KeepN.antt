-- ===== src/Conversations/KeepN.antt =====
-- The mode that keeps a number of conversations (Cleanup, internal/web/conversation_manager.go).
use m365_copilot2api_docker.Base.{
  ℕ, zero, suc, ◌≤◌, ◌≡◌, refl, String, Bool, true, false, some, List, [], ◌∷◌, ◌&&◌, ◌||◌, leb,
  ◌==◌, str_eq, if◌then◌else◌, drop, arith, eq_iff, ==_iff, All, Bool-cases, inl, inr,
}
use m365_copilot2api_docker.Dict.{Dict, get}
use m365_copilot2api_docker.Conversations.{
  Conversation, Manager, keep_n, insert_item, sorted_items, free_ids, to_delete,
}
use m365_copilot2api_docker.Conversations.Cleanup.{IsDict, listed}

abbrev Item : Type 0
Item = String × ℕ

-- An item with a name and a time.
among : String → ℕ → List Item → Bool
among j t [] = false
among j t (x ∷ xs) = (str_eq x.0 j && x.1 == t) || among j t xs

-- How many items are not older.
since : ℕ → List Item → ℕ
since t [] = 0
since t (x ∷ xs) = let rest = since t xs in if leb t x.1 then suc rest else rest

-- How many conversations were used at a time or later.
unfoldable pub used_since : ℕ → Dict Conversation → ℕ
used_since t [] = 0
used_since t ((id, c) ∷ d) =
    let rest = used_since t d in if leb t c.last_used_at then suc rest else rest

abbrev Descending : List Item → Type 0
Descending [] = Unit
Descending (x ∷ xs) = All (λ y. y.1 ≤ x.1) xs × Descending xs

since-insert_item :
    (t : ℕ) (x : Item) (xs : List Item)
    → since t (insert_item x xs) ≡ (if leb t x.1 then suc (since t xs) else since t xs)
unfolding since insert_item
since-insert_item t x [] = ground arith
since-insert_item t x (y ∷ ys) = ground (arith, since-insert_item t x ys)

since-sorted_items : (t : ℕ) (d : Dict Conversation) → since t (sorted_items d) ≡ used_since t d
unfolding since sorted_items used_since
since-sorted_items t [] = refl
since-sorted_items t ((id, c) ∷ d) =
    ground
      (arith, since-sorted_items t d, since-insert_item t (id, c.last_used_at) (sorted_items d))

insert_item-below :
    (bound : ℕ) (x : Item) (xs : List Item)
    → x.1 ≤ bound
    → All (λ y. y.1 ≤ bound) xs
    → All (λ y. y.1 ≤ bound) (insert_item x xs)
unfolding insert_item
insert_item-below bound x [] h a = (h, tt)
insert_item-below bound x (y ∷ ys) h a = ground (arith, insert_item-below bound x ys h a.1, a)

raise_bound : (a b : ℕ) (xs : List Item) → a ≤ b → All (λ y. y.1 ≤ a) xs → All (λ y. y.1 ≤ b) xs
raise_bound a b [] le h = tt
raise_bound a b (x ∷ xs) le h = (omega arith, raise_bound a b xs le h.1)

insert_item-Descending : (x : Item) (xs : List Item) → Descending xs → Descending (insert_item x xs)
unfolding insert_item
insert_item-Descending x [] d = (tt, tt)
insert_item-Descending x (y ∷ ys) d =
    ground (
      arith,
      insert_item-Descending x ys d.1,
      insert_item-below y.1 x ys,
      raise_bound y.1 x.1 ys,
      d,
    )

sorted_items-Descending : (d : Dict Conversation) → Descending (sorted_items d)
unfolding sorted_items
sorted_items-Descending [] = tt
sorted_items-Descending ((id, c) ∷ d) =
    insert_item-Descending (id, c.last_used_at) (sorted_items d) (sorted_items-Descending d)

among-insert_item :
    (j : String) (t : ℕ) (x : Item) (xs : List Item)
    → among j t (insert_item x xs) ≡ (str_eq x.0 j && x.1 == t || among j t xs)
unfolding among insert_item
among-insert_item j t x [] = ground arith
among-insert_item j t x (y ∷ ys) = ground (arith, among-insert_item j t x ys)

among-below :
    (j : String) (t bound : ℕ) (xs : List Item)
    → All (λ y. y.1 ≤ bound) xs
    → among j t xs ≡ true
    → t ≤ bound
unfolding among
among-below j t bound [] a h = cc
among-below j t bound (x ∷ xs) a h = ground (arith, among-below j t bound xs a.1, a.0, ==_iff x.1 t)

among-drop :
    (j : String) (t k : ℕ) (xs : List Item) → among j t (drop k xs) ≡ true → among j t xs ≡ true
unfolding among
among-drop j t zero xs h = h
among-drop j t (suc k) [] h = h
among-drop j t (suc k) (x ∷ xs) h = ground (arith, among-drop j t k xs h)

-- What stands behind the first `k` items is not newer than they are.
dropped_since :
    (j : String) (t k : ℕ) (xs : List Item)
    → Descending xs
    → among j t (drop k xs) ≡ true
    → k ≤ since t xs
unfolding among since
dropped_since j t zero xs d h = omega arith
dropped_since j t (suc k) [] d h = cc
dropped_since j t (suc k) (x ∷ xs) d h =
    let rest = dropped_since j t k xs d.1 h in
    let old = among-below j t x.1 xs d.0 (among-drop j t k xs h) in ground (arith, rest, old)

listed-among :
    (m : Manager) (j : String) (xs : List Item)
    → listed j (free_ids m xs) ≡ true
    → (t : ℕ) × (among j t xs ≡ true)
unfolding listed free_ids among
listed-among m j [] h = cc
listed-among m j (x ∷ xs) h = elim (Bool-cases (str_eq x.0 j)) [
  | inl here ↦ (x.1, ground (arith, here, ==_iff x.1 x.1))
  | inr other ↦
      let (t, there) = listed-among m j xs (ground (arith, other)) in (t, ground (arith, there))
]

among-get :
    (j : String) (t : ℕ) (d : Dict Conversation)
    → IsDict d
    → among j t (sorted_items d) ≡ true
    → (c : Conversation) × (get d j ≡ some c) × (c.last_used_at ≡ t)
unfolding among sorted_items get
among-get j t [] u h = cc
among-get j t ((id, c) ∷ d) u h = elim (Bool-cases (str_eq id j && c.last_used_at == t)) [
  | inl here ↦ (c, ground (arith, here), ground (arith, here, ==_iff c.last_used_at t))
  | inr other ↦
      let later : among j t (sorted_items d) ≡ true =
        ground (arith, other, among-insert_item j t (id, c.last_used_at) (sorted_items d)) in
      let (x, found, time) = among-get j t d u.1 later in
      (x, ground (arith, found, u.0, eq_iff id j), time)
]

-- Where each conversation stands once in the map, one that is deleted in the mode that keeps a
-- number of conversations is in the map, and at least
-- that number of conversations were used at the same time or later.
pub kept_latest :
    (now : ℕ) (m : Manager) (j : String)
    → IsDict m.data_of
    → listed j (to_delete now keep_n m) ≡ true
    → (c : Conversation) × (get m.data_of j ≡ some c)
      × (m.keep ≤ used_since c.last_used_at m.data_of)
unfolding to_delete listed
kept_latest now m j u h =
    let items = sorted_items m.data_of in
    let late : listed j (free_ids m (drop m.keep items)) ≡ true = ground arith in
    let (t, there) = listed-among m j (drop m.keep items) late in
    let (c, found, time) = among-get j t m.data_of u (among-drop j t m.keep items there) in
    let many = dropped_since j t m.keep items (sorted_items-Descending m.data_of) there in
    (c, found, rw time (rw (← since-sorted_items t m.data_of) many))
