-- ===== src/ReceiverDb/Insert.antt =====
-- A database without labels: the constructor, and the insertion of items.
use u_psu.Common.{
  ℕ, suc, ◌+◌, ◌*◌, ◌≡◌, ◌≤◌, refl, sym, ap, ◌∙◌, ◌⊎◌, inl, inr, Bool, true, false, ◌||◌, List, [],
  ◌∷◌, length, get_or, arith, ==_refl, Bool-cases,
}
use mathlib.Core.Path.{subst}
use native.Mathlib.Nat.{mul-le-mul_right}
use u_psu.Common.Sets.{contains}
use u_psu.Common.Results.{ok, ◌>>=◌}
use u_psu.PsuParams.{PsuParams}
use u_psu.Interpolate.{Modulus}
use u_psu.DbEncoding.{Item, same_item}
use u_psu.BinBundle.{FilterOps}
use u_psu.Workers.Room.{IsUnlabeled}
use u_psu.Workers.Dispatch.{AllSets, AllPlaced, IsHeldAt, dispatch_all_lem}
use u_psu.ReceiverDb.{ReceiverDb, layout_of, has_item, generate_caches, insert_or_assign}
use u_psu.ReceiverDb.Prepare.{Split, has, change_hashed_item, split_new}
use u_psu.ReceiverDb.Locations.{IsSetup, IsSized, IsSetup-IsSized}
use u_psu.ReceiverDb.Placed.{same_item_eq, has-cons, locations_of, IsAlgebraic, preprocess_lem}
use u_psu.ReceiverDb.Caches.{AllValid, each_set_lem}

change_hashed_item_lem : (items : List Item) → change_hashed_item items ≡ items
unfolding change_hashed_item
change_hashed_item_lem [] = refl
change_hashed_item_lem ((lw, hw) ∷ items) =
    ap (λ (r : List Item). (lw, hw) ∷ r) (change_hashed_item_lem items)

-- What a call of `remove_if` over `entries` gives.
record IsSplit (items : List Item) (count : ℕ) (entries : List Item) (s : Split Item) : Type 0 where
  counted : count ≡ length items → s.count ≡ length s.items
  members : (x : Item) → has s.items x ≡ (has items x || has entries x)
  fronts : (x : Item) → has s.items x ≡ true → (has items x ≡ true) ⊎ (has s.front x ≡ true)

or_swap : (a b c : Bool) → ((a || b) || c) ≡ (b || (a || c))
or_swap a b c = ground arith

split_new_lem :
    (items : List Item) (count : ℕ) (entries : List Item)
    → IsSplit items count entries (split_new (λ (x : Item). x) items count entries)
unfolding split_new
split_new_lem items count [] = record {
  counted = λ e. e;
  members = λ x. or_false (has items x);
  fronts = λ x h. inl h;
}
  where
    or_false : (b : Bool) → b ≡ (b || false)
    or_false true = refl
    or_false false = refl
split_new_lem items count (y ∷ entries) = elim (Bool-cases (has items y)) [
  | inl old ↦
      let r = split_new_lem items count entries in
      rw old (record {
        counted = r.counted;
        members = λ x. r.members x ∙ already y x items entries old;
        fronts = r.fronts;
      })
  | inr new ↦
      let r = split_new_lem (y ∷ items) (count + 1) entries in
      rw new (record {
        counted =
            λ e. r.counted (let next : count + 1 ≡ suc (length items) = omega (arith, e) in next);
        members = λ x. r.members x ∙ or_swap (same_item y x) (has items x) (has entries x);
        fronts = λ x h. elim (r.fronts x h) [
          | inr there ↦ inr (has-tail y x _ there)
          | inl here ↦ elim (has-cons y x items here) [
            | inl e ↦ inr (has-head y x _ e)
            | inr before ↦ inl before
          ]
        ];
      })
]
  where
    already :
        (y x : Item) (items entries : List Item)
        → has items y ≡ true
        → (has items x || has entries x) ≡ (has items x || (same_item y x || has entries x))
    already y x items entries old = elim (Bool-cases (same_item y x)) [
      | inr n ↦ rw n refl
      | inl t ↦
          let e = same_item_eq y x t in
          let there : has items x ≡ true = subst (λ (z : Item). has items z ≡ true) e old in
          rw there refl
    ]

    has-tail : (y x : Item) (items : List Item) → has items x ≡ true → has (y ∷ items) x ≡ true
    has-tail y x items h = ground arith

    has-head : (y x : Item) (items : List Item) → y ≡ x → has (y ∷ items) x ≡ true
    has-head y (a, b) items e =
        subst (λ (z : Item). has (z ∷ items) (a, b) ≡ true) (sym e) (rw (==_refl a, ==_refl b) refl)

module _ {F K : Type 0} (m : Modulus) (location : ℕ → ℕ → Item → ℕ) where
  -- A database without labels that is not stripped: its bundles are well-formed and below the
  -- bound, the number of items is right, and each of the items is held at each of its locations.
  pub record IsDatabase (db : ReceiverDb F K) : Type 0 where
    pub setup : IsSetup m location db.params
    pub unlabeled : db.label_byte_count ≡ 0
    pub open_ : db.stripped ≡ false
    pub sets : AllSets (layout_of db.params 0) db.bin_bundles
    pub size : length db.bin_bundles ≡ db.params.bundle_idx_count
    pub counted : db.item_count ≡ length db.hashed_items
    pub held :
        (x : Item) (d : List ℕ) (l : ℕ)
        → has db.hashed_items x ≡ true
        → IsAlgebraic m db.params x d
        → contains (locations_of location db.params x) l ≡ true
        → IsHeldAt db.params.bins_per_bundle db.bin_bundles d
            (l * db.params.item_params.felts_per_item)

pub has_item_lem :
    {F K : Type 0} (db : ReceiverDb F K) (x : Item)
    → db.stripped ≡ false
    → has_item db x ≡ ok (has db.hashed_items x)
unfolding has_item change_hashed_item
has_item_lem db (a, b) open_ = rw open_ refl

IsSized-IsUnlabeled : (p : PsuParams) → IsSized p → IsUnlabeled (layout_of p 0)
IsSized-IsUnlabeled p h =
    let pos = h.felts_pos in
    let items = h.items_pos in
    let least : 1 * p.item_params.felts_per_item
        ≤ p.items_per_bundle * p.item_params.felts_per_item =
      mul-le-mul_right p.item_params.felts_per_item items in
    record {
      no_labels = refl;
      some_room = h.some_room;
      small = h.small;
      low_degree = h.low_degree;
      some_bins = rw h.bins_eq (omega arith);
    }

-- Items are inserted into a database without labels. It ends without an exception. The database
-- stays one: the bundles are well-formed, each bin is below the bound, the number of items is right,
-- and each item is held at each of its locations. The caches can be read, and exactly the inserted
-- items are found besides those that were found before.
pub insert_or_assign_lem :
    {F K : Type 0} (ops : FilterOps F) (m : Modulus) (location : ℕ → ℕ → Item → ℕ)
    (entries : List Item) (db : ReceiverDb F K)
    → IsDatabase m location db
    → (db' : ReceiverDb F K) × (insert_or_assign ops m location entries db ≡ ok db')
      × IsDatabase m location db'
      × ((j : ℕ) → AllValid (get_or db'.bin_bundles j []))
      × ((x : Item) → has_item db' x ≡ (has_item db x >>= λ old. ok (old || has entries x)))
unfolding insert_or_assign generate_caches
insert_or_assign_lem {F = F} {K = K} ops m location entries db h =
    let p = db.params in
    let layout = layout_of p 0 in
    let s =
      split_new (λ (x : Item). x) db.hashed_items db.item_count (change_hashed_item entries) in
    let split : IsSplit db.hashed_items db.item_count entries s =
      subst
        (λ (es : List Item).
          IsSplit db.hashed_items db.item_count es (
            split_new (λ (x : Item). x) db.hashed_items db.item_count (change_hashed_item entries)))
        (change_hashed_item_lem entries)
        (split_new_lem db.hashed_items db.item_count (change_hashed_item entries)) in
    let sized = IsSetup-IsSized m location p h.setup in
    let plain = IsSized-IsUnlabeled p sized in
    let (out, run, placed, entered) = preprocess_lem m location p h.setup s.front in
    let (bs, run', step, placed_at) =
      dispatch_all_lem ops layout plain out db.bin_bundles h.sets
        (subst (λ (n : ℕ). AllPlaced p.bins_per_bundle n out) (sym h.size) placed) in
    let (bs', run'', all, size, grows, valid) =
      each_set_lem m h.setup.laws h.setup.large layout refl bs step.all in
    let db' : ReceiverDb F K = record db {
      hashed_items = s.items;
      item_count = s.count;
      bin_bundles = bs';
    } in
    (
      db',
      simp (h.open_, h.unlabeled, run, run', run''),
      record {
        setup = h.setup;
        unlabeled = h.unlabeled;
        open_ = h.open_;
        sets = all;
        size = size ∙ step.size ∙ h.size;
        counted = split.counted h.counted;
        held = λ x d l there alg at. elim (split.fronts x there) [
          | inl old ↦ grows _ d _ (step.grow _ d _ (h.held x d l old alg at))
          | inr new ↦ let (k, e) = entered x d l new alg at in grows _ d _ (placed_at k d _ e)
        ];
      },
      valid,
      λ x.
          rw (has_item_lem db' x h.open_, has_item_lem db x h.open_)
            (ap (λ (b : Bool). ok b) (split.members x)),
    )
