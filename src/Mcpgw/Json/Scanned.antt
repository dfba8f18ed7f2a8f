-- ===== src/Mcpgw/Json/Scanned.antt =====
-- What the scan of a document's tokens finds: the repeated keys, as long as it can read the numbers.
use mathlib.Core.List.{append_assoc}
use legant.Base.{
  ap, ◌∙◌, ℕ, zero, suc, ◌+◌, ◌-◌, ◌≤◌, String, ◌≡◌, refl, Bool, true, false, not, ◌&&◌, List, [],
  ◌∷◌, ◌++◌, arith, contains, string_eq, eq_iff, Bool-cases, inl, inr,
}
use legant.Mcpgw.Json.{
  Json, null, boolean, number, text, array, object, Items, no_items, item, Members, no_members,
  member, JsonToken, Scan, rest, duplicate_key, at_value, in_object, in_array, scan_duplicate_keys,
  has_duplicate_keys, tokens_of, item_tokens, member_tokens, names, unique_keys, unique_items,
  unique_members, is_duplicate, token_count, then_at, scan_member, numbers_fit, items_fit,
  members_fit,
}

abbrev found_if : Bool → List JsonToken → Scan
found_if true ts = rest ts
found_if false ts = duplicate_key

unfoldable mutual
  cost : Json → ℕ
  cost (array xs) = suc (cost_items xs)
  cost (object ms) = suc (cost_members ms)
  cost j = 1

  cost_items : Items → ℕ
  cost_items no_items = 1
  cost_items (item j xs) = suc (cost j + cost_items xs)

  cost_members : Members → ℕ
  cost_members no_members = 1
  cost_members (member k j ms) = suc (cost j + cost_members ms)

count-append : (ts us : List JsonToken) → token_count (ts ++ us) ≡ token_count ts + token_count us
count-append [] us = omega arith
count-append (t ∷ ts) us = omega (arith, count-append ts us)

module _ (fits : String → Bool) where
  mutual
    unfolding cost tokens_of

    cost-le :
        (j : Json) → suc (cost j) ≤ token_count (tokens_of fits j) + token_count (tokens_of fits j)
    cost-le null = omega arith
    cost-le (boolean b) = omega arith
    cost-le (number s) = omega arith
    cost-le (text s) = omega arith
    cost-le (array xs) = omega (arith, cost_items-le xs)
    cost-le (object ms) = omega (arith, cost_members-le ms)

    cost_items-le :
        (xs : Items)
        → suc (cost_items xs)
          ≤ token_count (item_tokens fits xs) + token_count (item_tokens fits xs)
    cost_items-le no_items = omega arith
    cost_items-le (item j xs) =
        omega (
          arith,
          cost-le j,
          cost_items-le xs,
          count-append (tokens_of fits j) (item_tokens fits xs),
        )

    cost_members-le :
        (ms : Members)
        → suc (cost_members ms)
          ≤ token_count (member_tokens fits ms) + token_count (member_tokens fits ms)
    cost_members-le no_members = omega arith
    cost_members-le (member k j ms) = omega (
      arith,
      cost-le j,
      cost_members-le ms,
      count-append (tokens_of fits j) (member_tokens fits ms),
    )

-- No object from here on names a key twice, or one of the keys seen.
unfoldable fresh : List String → Members → Bool
fresh seen no_members = true
fresh seen (member k j ms) = not (contains seen k) && unique_keys j && fresh (k ∷ seen) ms

unfoldable apart : List String → Members → Bool
apart seen no_members = true
apart seen (member k j ms) = not (contains seen k) && apart seen ms

apart-cons :
    (k : String) (seen : List String) (ms : Members)
    → apart (k ∷ seen) ms ≡ (not (names ms k) && apart seen ms)
unfolding apart names contains
apart-cons k seen no_members = refl
apart-cons k seen (member k' j ms) = ground (arith, apart-cons k seen ms, eq_iff k k', eq_iff k' k)

fresh_lem :
    (seen : List String) (ms : Members) → fresh seen ms ≡ (unique_members ms && apart seen ms)
unfolding fresh unique_keys apart
fresh_lem seen no_members = refl
fresh_lem seen (member k j ms) =
    mixed (contains seen k) (unique_keys j) (names ms k) (unique_members ms) (apart seen ms)
      (fresh_lem (k ∷ seen) ms ∙ ap (λ b. unique_members ms && b) (apart-cons k seen ms))
  where
    mixed :
        (c u p m s : Bool) {f : Bool}
        → f ≡ (m && (not p && s))
        → (not c && u && f) ≡ ((u && not p && m) && (not c && s))
    mixed c u p m s h = ground (arith, h)

apart-nil : (ms : Members) → apart [] ms ≡ true
unfolding apart contains
apart-nil no_members = refl
apart-nil (member k j ms) = apart-nil ms

module _ (fits : String → Bool) where
  -- A value does not begin with the end of an array.
  in_array-value :
      (j : Json) (n : ℕ) (ts : List JsonToken)
      → scan_duplicate_keys (suc n) in_array (tokens_of fits j ++ ts)
        ≡ then_at
            (scan_duplicate_keys n in_array)
            (scan_duplicate_keys n at_value (tokens_of fits j ++ ts))
  unfolding scan_duplicate_keys tokens_of
  in_array-value null n ts = refl
  in_array-value (boolean b) n ts = refl
  in_array-value (number s) n ts = elim (Bool-cases (fits s)) [
    | inl near ↦ rw near refl
    | inr far ↦ rw far refl
  ]
  in_array-value (text s) n ts = refl
  in_array-value (array xs) n ts = refl
  in_array-value (object ms) n ts = refl

then_at-found :
    (next : List JsonToken → Scan) (b c : Bool) (ts us : List JsonToken)
    → next ts ≡ found_if c us
    → then_at next (found_if b ts) ≡ found_if (b && c) us
then_at-found next true c ts us h = h
then_at-found next false c ts us h = refl

scan_member-found :
    (seen b c : Bool) (ts : List JsonToken)
    → scan_member seen (found_if (b && c) ts) ≡ found_if (not seen && b && c) ts
scan_member-found seen b c ts = ground arith

positive : (j : Json) → 1 ≤ cost j
unfolding cost
positive (array xs) = omega arith
positive (object ms) = omega arith
positive null = omega arith
positive (boolean b) = omega arith
positive (number s) = omega arith
positive (text s) = omega arith

without : (b : Bool) {c : Bool} → c ≡ true → (b && c) ≡ b
without b h = ground (arith, h)

both : (b : Bool) {c : Bool} → (b && c) ≡ true → (b ≡ true) × (c ≡ true)
both b h = (ground (arith, h), ground (arith, h))

module _ (fits : String → Bool) where
  mutual
    unfolding scan_duplicate_keys tokens_of unique_keys cost fresh numbers_fit

    scan_json :
        (j : Json) (n : ℕ) (ts : List JsonToken)
        → cost j ≤ n
        → numbers_fit fits j ≡ true
        → scan_duplicate_keys n at_value (tokens_of fits j ++ ts) ≡ found_if (unique_keys j) ts
    scan_json j zero ts h fit = absurd (omega (arith, h, positive j))
    scan_json null (suc n) ts h fit = refl
    scan_json (boolean b) (suc n) ts h fit = refl
    scan_json (number s) (suc n) ts h fit = rw fit refl
    scan_json (text s) (suc n) ts h fit = refl
    scan_json (array xs) (suc n) ts h fit = scan_items xs n ts (omega (arith, h)) fit
    scan_json (object ms) (suc n) ts h fit =
        scan_members ms [] n ts (omega (arith, h)) fit
        ∙ ap (λ b. found_if b ts) (fresh_lem [] ms ∙ without (unique_members ms) (apart-nil ms))

    scan_items :
        (xs : Items) (n : ℕ) (ts : List JsonToken)
        → cost_items xs ≤ n
        → items_fit fits xs ≡ true
        → scan_duplicate_keys n in_array (item_tokens fits xs ++ ts) ≡ found_if (unique_items xs) ts
    scan_items no_items zero ts h fit = absurd (omega (arith, h))
    scan_items no_items (suc n) ts h fit = refl
    scan_items (item j xs) zero ts h fit = absurd (omega (arith, h))
    scan_items (item j xs) (suc n) ts h fit = rw append_assoc (
        in_array-value fits j n (item_tokens fits xs ++ ts)
        ∙ ap (then_at (scan_duplicate_keys n in_array)) (
            scan_json j n (item_tokens fits xs ++ ts) (omega (arith, h))
              (both (numbers_fit fits j) fit).0)
        ∙ then_at-found (scan_duplicate_keys n in_array) (unique_keys j) (unique_items xs)
            (item_tokens fits xs ++ ts) ts
            (scan_items xs n ts (omega (arith, h)) (both (numbers_fit fits j) fit).1))

    scan_members :
        (ms : Members) (seen : List String) (n : ℕ) (ts : List JsonToken)
        → cost_members ms ≤ n
        → members_fit fits ms ≡ true
        → scan_duplicate_keys n (in_object seen) (member_tokens fits ms ++ ts)
          ≡ found_if (fresh seen ms) ts
    scan_members no_members seen zero ts h fit = absurd (omega (arith, h))
    scan_members no_members seen (suc n) ts h fit = refl
    scan_members (member k j ms) seen zero ts h fit = absurd (omega (arith, h))
    scan_members (member k j ms) seen (suc n) ts h fit = rw append_assoc (
        ap (scan_member (contains seen k)) (
          ap (then_at (scan_duplicate_keys n (in_object (k ∷ seen)))) (
            scan_json j n (member_tokens fits ms ++ ts) (omega (arith, h))
              (both (numbers_fit fits j) fit).0)
          ∙ then_at-found (scan_duplicate_keys n (in_object (k ∷ seen))) (unique_keys j)
              (fresh (k ∷ seen) ms) (member_tokens fits ms ++ ts) ts
              (scan_members ms (k ∷ seen) n ts (omega (arith, h))
                (both (numbers_fit fits j) fit).1))
        ∙ scan_member-found (contains seen k) (unique_keys j) (fresh (k ∷ seen) ms) ts)

append-nil : (ts : List JsonToken) → ts ++ [] ≡ ts
append-nil [] = refl
append-nil (t ∷ ts) = ap (λ us. t ∷ us) (append-nil ts)

-- Over the tokens of a document whose numbers are all in the range of float64, the scan reports a
-- duplicate exactly where some object of the document, at whatever depth, has a key twice.
pub has_duplicate_keys_lem :
    (fits : String → Bool) (j : Json)
    → numbers_fit fits j ≡ true
    → has_duplicate_keys (tokens_of fits j) ≡ not (unique_keys j)
unfolding has_duplicate_keys
has_duplicate_keys_lem fits j fit =
    let ts = tokens_of fits j in
    let scanned : scan_duplicate_keys (suc (token_count ts + token_count ts)) at_value ts
        ≡ found_if (unique_keys j) [] =
      rw append-nil at (
        scan_json fits j (suc (token_count ts + token_count ts)) [] (omega (arith, cost-le fits j))
          fit) in
    ap is_duplicate scanned ∙ reported (unique_keys j)
  where
    reported : (b : Bool) → is_duplicate (found_if b []) ≡ not b
    reported true = refl
    reported false = refl

stops_at_number :
    (fits : String → Bool) (k s : String) (ms : Members) (n : ℕ)
    → fits s ≡ false
    → is_duplicate (
        scan_duplicate_keys
          (suc (suc (suc n)))
          at_value
          (tokens_of fits (object (member k (number s) ms))))
      ≡ false
unfolding scan_duplicate_keys tokens_of contains
stops_at_number fits k s ms n out = rw out refl

enough :
    (fits : String → Bool) (k s : String) (ms : Members)
    → let ts = tokens_of fits (object (member k (number s) ms)) in
      3 ≤ suc (token_count ts + token_count ts)
unfolding tokens_of
enough fits k s ms = omega arith

-- An object whose first value is a number out of the range of float64 passes the scan whatever
-- follows, repeated keys included.
pub has_duplicate_keys-number :
    (fits : String → Bool) (k s : String) (ms : Members)
    → fits s ≡ false
    → has_duplicate_keys (tokens_of fits (object (member k (number s) ms))) ≡ false
unfolding has_duplicate_keys
has_duplicate_keys-number fits k s ms out =
    let ts = tokens_of fits (object (member k (number s) ms)) in
    let three : 3 ≤ suc (token_count ts + token_count ts) = enough fits k s ms in
    let fuel = suc (token_count ts + token_count ts) in
    let shape : fuel ≡ suc (suc (suc (fuel - 3))) = omega (arith, three) in
    ap (λ n. is_duplicate (scan_duplicate_keys n at_value ts)) shape
    ∙ stops_at_number fits k s ms (fuel - 3) out
