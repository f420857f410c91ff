-- ===== src/Workers/Schedule.antt =====
-- Tasks that each change their own entry of a vector, in any order.
use u_psu.Common.{
  ℕ, ◌≡◌, ◌≢◌, ◌<◌, sym, ap, ◌∙◌, inl, inr, Bool, List, [], ◌∷◌, ◌==◌, length, get_or, set, arith,
  length-set, get_or-set_ne, Bool-cases, ==→eq, ==_refl,
}
use mathlib.Core.Path.{subst}
use mathlib.Core.List.{Permᴰ}
use u_psu.Common.Results.{ok_injective, Result, ok, ◌>>=◌, >>=-eq-ok}
use u_psu.BinBundle.{FilterOps, BinBundle}
use u_psu.Workers.{
  Overloads, Layout, run_tasks, bundle_indices, for_bundle, insert_or_assign_one,
  insert_or_assign_worker, dispatch_insert_or_assign, remove_one, remove_worker, dispatch_remove,
}
use u_psu.Workers.Local.{set-swap, on_set, for_bundle-on_set}

-- The indices lie below `n`.
abbrev pub IsBelow : ℕ → List ℕ → Type 0
IsBelow n [] = Unit
IsBelow n (i ∷ is) = (i < n) × IsBelow n is

IsBelow-Perm : (n : ℕ) (l l' : List ℕ) → Permᴰ l l' → IsBelow n l → IsBelow n l'
IsBelow-Perm n _ _ Permᴰ.nil h = h
IsBelow-Perm n _ _ (Permᴰ.cons e p) (lt, h) =
    (subst (λ (i : ℕ). i < n) e lt, IsBelow-Perm n _ _ p h)
IsBelow-Perm n _ _ (Permᴰ.swap e f) (lt, h) =
    (subst (λ (i : ℕ). i < n) f h.0, (subst (λ (i : ℕ). i < n) e lt, h.1))
IsBelow-Perm n _ _ (Permᴰ.trans p q) h = IsBelow-Perm n _ _ q (IsBelow-Perm n _ _ p h)

module _ {S : Type 0} (task : ℕ → List S → Result (List S)) (d : S) (f : ℕ → S → Result S)
    (own : (i : ℕ) (bs : List S)
      → i < length bs
      → task i bs ≡ (f i (get_or bs i d) >>= λ s. ok (set bs i s))) where
  task_own :
      (i : ℕ) (bs bs' : List S)
      → i < length bs
      → task i bs ≡ ok bs'
      → (s : S) × (f i (get_or bs i d) ≡ ok s) × (set bs i s ≡ bs')
  task_own i bs bs' h e =
      let (s, run, same) =
        >>=-eq-ok (f i (get_or bs i d)) (λ s. ok (set bs i s)) (sym (own i bs h) ∙ e) in
      (s, run, ok_injective same)

  task_run :
      (i : ℕ) (bs : List S) (s : S)
      → i < length bs
      → f i (get_or bs i d) ≡ ok s
      → task i bs ≡ ok (set bs i s)
  task_run i bs s h e = own i bs h ∙ ap (λ (r : Result S). r >>= λ s. ok (set bs i s)) e

  -- Two tasks.
  swap_tasks :
      (i j : ℕ) (bs r : List S) (l : List ℕ)
      → i < length bs
      → j < length bs
      → run_tasks task (i ∷ j ∷ l) bs ≡ ok r
      → run_tasks task (j ∷ i ∷ l) bs ≡ ok r
  unfolding run_tasks
  swap_tasks i j bs r l hi hj e = elim (Bool-cases (i == j)) [
    | inl t ↦
        let same = ==→eq i j t in
        subst (λ (k : ℕ). run_tasks task (k ∷ i ∷ l) bs ≡ ok r) same
          (subst (λ (k : ℕ). run_tasks task (i ∷ k ∷ l) bs ≡ ok r) (sym same) e)
    | inr n ↦
        let ne : i ≢ j = λ same. cc (n, ap (λ (k : ℕ). i == k) same, ==_refl i) in
        let (bs1, run1, e1) = >>=-eq-ok (task i bs) (λ bs. run_tasks task (j ∷ l) bs) e in
        let (s, fs, same1) = task_own i bs bs1 hi run1 in
        let (bs2, run2, e2) = >>=-eq-ok (task j bs1) (λ bs. run_tasks task l bs) e1 in
        let hj1 : j < length bs1 = omega (arith, ap length same1, length-set bs i s) in
        let (t, ft, same2) = task_own j bs1 bs2 hj1 run2 in
        let at_j : get_or bs1 j d ≡ get_or bs j d =
          ap (λ (z : List S). get_or z j d) (sym same1) ∙ get_or-set_ne bs i j s d ne in
        let ft' : f j (get_or bs j d) ≡ ok t = ap (λ (z : S). f j z) (sym at_j) ∙ ft in
        let first = task_run j bs t hj ft' in
        let at_i : get_or (set bs j t) i d ≡ get_or bs i d =
          get_or-set_ne bs j i t d (λ k. ne (sym k)) in
        let second =
          task_run i (set bs j t) s (omega (arith, length-set bs j t))
            (ap (λ (z : S). f i z) at_i ∙ fs) in
        let final : set (set bs j t) i s ≡ bs2 =
          sym (set-swap bs i j s t ne) ∙ ap (λ (z : List S). set z j t) same1 ∙ same2 in
        rw (first, second, final) e2
  ]

  pub run_tasks-Perm :
      (l l' : List ℕ) (bs r : List S)
      → Permᴰ l l'
      → IsBelow (length bs) l
      → run_tasks task l bs ≡ ok r
      → run_tasks task l' bs ≡ ok r
  unfolding run_tasks
  run_tasks-Perm _ _ bs r Permᴰ.nil h e = e
  run_tasks-Perm (i ∷ l) (j ∷ l') bs r (Permᴰ.cons same p) (lt, h) e =
      let (bs1, run1, e1) = >>=-eq-ok (task i bs) (λ bs. run_tasks task l bs) e in
      let (s, fs, same1) = task_own i bs bs1 lt run1 in
      let size : length bs ≡ length bs1 = sym (length-set bs i s) ∙ ap length same1 in
      let rest = run_tasks-Perm l l' bs1 r p (subst (λ (n : ℕ). IsBelow n l) size h) e1 in
      rw (← same, run1) rest
  run_tasks-Perm (i ∷ j ∷ l) _ bs r (Permᴰ.swap same same') (lt, h) e =
      rw (← same, ← same') (swap_tasks i j bs r l lt h.0 e)
  run_tasks-Perm l _ bs r (Permᴰ.trans {l₂ = l₂} p q) h e =
      run_tasks-Perm _ _ bs r q (IsBelow-Perm (length bs) _ _ p h) (run_tasks-Perm _ _ bs r p h e)

-- Where the insertion ends without an exception, and each bundle index lies in the vector, the
-- tasks may run in any other order: they give the same bundles.
pub dispatch_insert_or_assign-run_tasks :
    {F T : Type 0} (ops : FilterOps F) (calls : Overloads F T) (layout : Layout) (overwrite : Bool)
    (items : List (T × ℕ)) (bin_bundles r : List (List (BinBundle F))) (order : List ℕ)
    → IsBelow (length bin_bundles) (bundle_indices layout.bins_per_bundle items)
    → Permᴰ (bundle_indices layout.bins_per_bundle items) order
    → dispatch_insert_or_assign ops calls layout overwrite items bin_bundles ≡ ok r
    → run_tasks
        (λ i bs. insert_or_assign_worker ops calls layout overwrite i items bs)
        order
        bin_bundles
      ≡ ok r
unfolding dispatch_insert_or_assign insert_or_assign_worker
dispatch_insert_or_assign-run_tasks ops calls layout overwrite items bin_bundles r order below perm
      e =
    let one = insert_or_assign_one ops calls layout overwrite in
    run_tasks-Perm (λ i bs. for_bundle one layout.bins_per_bundle i items bs) []
      (λ i. on_set one layout.bins_per_bundle i items)
      (λ i bs lt. for_bundle-on_set one layout.bins_per_bundle i items bs lt)
      (bundle_indices layout.bins_per_bundle items) order bin_bundles r perm below e

-- The same of the removal.
pub dispatch_remove-run_tasks :
    {F : Type 0} (ops : FilterOps F) (bins_per_bundle : ℕ) (items : List (List ℕ × ℕ))
    (bin_bundles r : List (List (BinBundle F))) (order : List ℕ)
    → IsBelow (length bin_bundles) (bundle_indices bins_per_bundle items)
    → Permᴰ (bundle_indices bins_per_bundle items) order
    → dispatch_remove ops bins_per_bundle items bin_bundles ≡ ok r
    → run_tasks (λ i bs. remove_worker ops bins_per_bundle i items bs) order bin_bundles ≡ ok r
unfolding dispatch_remove remove_worker
dispatch_remove-run_tasks ops bins_per_bundle items bin_bundles r order below perm e =
    let one = remove_one ops bins_per_bundle in
    run_tasks-Perm (λ i bs. for_bundle one bins_per_bundle i items bs) []
      (λ i. on_set one bins_per_bundle i items)
      (λ i bs lt. for_bundle-on_set one bins_per_bundle i items bs lt)
      (bundle_indices bins_per_bundle items) order bin_bundles r perm below e
