-- ===== src/ReceiverDb/Strip.antt =====
-- A stripped database.
use u_psu.Common.{ℕ, ◌≡◌, refl, sym, ap, true, List, []}
use u_psu.Common.Results.{ok, err, logic_error, >>=-eq-ok, ok_injective}
use u_psu.Interpolate.{Modulus}
use u_psu.DbEncoding.{Item}
use u_psu.BinBundle.{FilterOps}
use u_psu.BinBundle.Cache.{strip}
use u_psu.ReceiverDb.{
  ReceiverDb, each_set, get_oprf_key, has_item, strip_db, insert_or_assign,
  insert_or_assign_labeled, remove,
}

-- Stripping, where it succeeds, returns the OPRF key and clears it in the database. Then
-- get_oprf_key, has_item, both insertions and remove throw logic_error, whatever their arguments.
pub strip_db_lem :
    {F K L : Type 0} (ops : FilterOps F) (m : Modulus) (location : ℕ → ℕ → Item → ℕ)
    (no_key key : K) (db db' : ReceiverDb F K) (entries : List Item) (item : Item)
    (tail : List Item → List Item)
    (compute_hashes : List (Item × L) → K → ℕ → ℕ → List (Item × List ℕ))
    (tail_labeled : List (Item × List ℕ) → List (Item × List ℕ)) (labeled : List (Item × L))
    → strip_db m no_key db ≡ ok (key, db')
    → (key ≡ db.oprf_key)
      × (db'.oprf_key ≡ no_key)
      × (get_oprf_key db' ≡ err logic_error)
      × (has_item db' item ≡ err logic_error)
      × (insert_or_assign ops m location entries db' ≡ err logic_error)
      × (insert_or_assign_labeled ops m location compute_hashes tail_labeled labeled db'
          ≡ err logic_error)
      × (remove ops m location tail entries db' ≡ err logic_error)
unfolding strip_db get_oprf_key has_item insert_or_assign insert_or_assign_labeled remove
strip_db_lem {F = F} {K = K} ops m location no_key key db db' entries item tail compute_hashes
      tail_labeled labeled h =
    let (sets, run, e) = >>=-eq-ok (each_set (strip m) db.bin_bundles) _ h in
    let same : ◌≡◌ {A = K × ReceiverDb F K}
        (
          db.oprf_key,
          record db { stripped = true; oprf_key = no_key; hashed_items = []; bin_bundles = sets },
        )
        (key, db') =
      ok_injective e in
    let shut : db'.stripped ≡ true = sym (ap (λ (r : K × ReceiverDb F K). r.1.stripped) same) in
    (
      sym (ap (λ (r : K × ReceiverDb F K). r.0) same),
      sym (ap (λ (r : K × ReceiverDb F K). r.1.oprf_key) same),
      rw shut refl,
      rw shut refl,
      rw shut refl,
      rw shut refl,
      rw shut refl,
    )
