-- ===== src/Offers/Order.antt =====
-- The order in which plans are shown hides no plan.
use yourcastbot.Offers.{
  Sku, is_current, is_rest, is_showcase, or_list, ordered, seen, storefront_rows,
  tariffs_for_change_plan, tariffs_for_storefront, visible_after,
}
use yourcastbot.Prelude.{
  All, Bool, List, [], ap, arith, false, if◌then◌else◌, length, refl, suc, sym, true, ℕ, ◌++◌, ◌+◌,
  ◌<◌, ◌==◌, ◌||◌, ◌∙◌, ◌∷◌, ◌≡◌, ◌≢◌,
}
use yourcastbot.Table.{count_where, exists_where, select_where}
use yourcastbot.Table.Laws.{All-intro, select-Member}

count-append :
    (p : Sku → Bool) (xs ys : List Sku)
    → count_where p (xs ++ ys) ≡ count_where p xs + count_where p ys
count-append p [] ys = omega arith
count-append p (x ∷ xs) ys = ground (arith, count-append p xs ys)

parts :
    (p : Sku → Bool) (i : ℕ) (rows : List Sku)
    → count_where p (select_where is_showcase rows)
        + count_where p (select_where (is_current i) rows)
        + count_where p (select_where (is_rest i) rows)
      ≡ count_where p rows
parts p i [] = refl
parts p i (x ∷ xs) = ground (arith, parts p i xs)

ordered-count :
    (p : Sku → Bool) (i : ℕ) (rows : List Sku) → count_where p (ordered i rows) ≡ count_where p rows
ordered-count p i rows =
    count-append p (select_where is_showcase rows ++ select_where (is_current i) rows) _
    ∙ ap (λ n. n + count_where p (select_where (is_rest i) rows))
        (count-append p (select_where is_showcase rows) (select_where (is_current i) rows))
    ∙ parts p i rows

all_count : (rows : List Sku) → count_where (λ _. true) rows ≡ length rows
all_count [] = refl
all_count (x ∷ xs) = ap suc (all_count xs)

ordered-length : (i : ℕ) (rows : List Sku) → length (ordered i rows) ≡ length rows
ordered-length i rows =
    sym (all_count (ordered i rows)) ∙ ordered-count (λ _. true) i rows ∙ all_count rows

or_list-empty : (xs ys : List Sku) → length ys ≡ 0 → or_list xs ys ≡ xs
or_list-empty (x ∷ xs) ys h = refl
or_list-empty [] [] h = refl
or_list-empty [] (y ∷ ys) h = absurd (ground arith)

or_list-some : (xs ys : List Sku) → 0 < length xs → or_list xs ys ≡ xs
or_list-some (x ∷ xs) ys h = refl
or_list-some [] ys h = absurd (ground arith)

-- The last two lines of `tariffs_for_storefront` never change the result.
storefront-ordered : (i : ℕ) (rows : List Sku) → storefront_rows i rows ≡ ordered i rows
storefront-ordered i [] = refl
storefront-ordered i (x ∷ xs) =
    let e = ordered-length i (x ∷ xs) in or_list-some (ordered i (x ∷ xs)) _ (ground arith)

-- The first plans are Relay's, then the current one if it is another, then the rest.
pub record IsStorefront (i : ℕ) (live shown : List Sku) : Type 0 where
  pub first : List Sku
  pub second : List Sku
  pub third : List Sku
  pub split : shown ≡ first ++ second ++ third
  pub relay_first : All (λ t. is_showcase t ≡ true) first
  pub current_next : All (λ t. (is_showcase t ≡ false) × (t.id ≡ i)) second
  pub others_last : All (λ t. (is_showcase t ≡ false) × (t.id ≢ i)) third
  pub none_hidden : (p : Sku → Bool) → count_where p shown ≡ count_where p live

rest-other : (i : ℕ) (t : Sku) → is_rest i t ≡ true → (is_showcase t ≡ false) × (t.id ≢ i)
rest-other i t h =
    (ground arith, λ e. let own : (t.id == i) ≡ true = ground arith in absurd (ground arith))

-- What is still shown when some ids were.
visible-count :
    (n : ℕ) (ids : List ℕ) (ts : List Sku)
    → count_where (λ t. t.id == n) (visible_after ids ts)
      ≡ (if n == 0 || seen n ids then 0 else if exists_where (λ t. t.id == n) ts then 1 else 0)
visible-count n ids [] = ground arith
visible-count n ids (t ∷ ts) =
    ground (arith, visible-count n ids ts, visible-count n (t.id ∷ ids) ts, ap (λ k. seen k ids))

-- Every live plan once: an id other than 0 that the table has stands once among the rows shown.
live_once :
    (n : ℕ) (ts : List Sku)
    → count_where (λ t. t.id == n) (tariffs_for_change_plan ts)
      ≡ (if n == 0 then 0 else if exists_where (λ t. t.id == n) ts then 1 else 0)
unfolding tariffs_for_change_plan
live_once n ts = visible-count n [] ts ∙ ground arith

-- The storefront shows the rows of the change-plan page, each as often: Relay first, then the current
-- plan, then the others; and each id of the table other than 0 stands once in it.
pub tariffs_for_storefront-IsStorefront :
    (i : ℕ) (tariffs : List Sku)
    → IsStorefront i (tariffs_for_change_plan tariffs) (tariffs_for_storefront i tariffs)
      × ((n : ℕ)
          → count_where (λ t. t.id == n) (tariffs_for_storefront i tariffs)
            ≡ (if n == 0 then 0 else if exists_where (λ t. t.id == n) tariffs then 1 else 0))
unfolding tariffs_for_storefront
tariffs_for_storefront-IsStorefront i tariffs =
    let rows = tariffs_for_change_plan tariffs in
    let e = storefront-ordered i rows in
    (
      record {
        first = select_where is_showcase rows;
        second = select_where (is_current i) rows;
        third = select_where (is_rest i) rows;
        split = e;
        relay_first =
            All-intro _ (select_where is_showcase rows)
              (λ t m. (select-Member is_showcase rows t m).1);
        current_next = All-intro _ (select_where (is_current i) rows) (λ t m.
            let c = (select-Member (is_current i) rows t m).1 in (ground arith, ground arith));
        others_last =
            All-intro _ (select_where (is_rest i) rows)
              (λ t m. rest-other i t (select-Member (is_rest i) rows t m).1);
        none_hidden = λ p. ap (count_where p) e ∙ ordered-count p i rows;
      },
      λ n.
          ap (count_where (λ t. t.id == n)) e
          ∙ ordered-count (λ t. t.id == n) i rows
          ∙ live_once n tariffs,
    )
