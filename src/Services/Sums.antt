-- ===== src/Services/Sums.antt =====
-- What a group of instances requires of a resource, added up over all instances.
use large_model_proxy.Base.{
  ℕ, zero, suc, ◌≡◌, sym, ap, ◌∙◌, String, Bool, true, false, List, [], ◌∷◌, ◌++◌, some, ℤ, pos,
  ◌+ℤ◌, ◌-ℤ◌, +ℤ_flip, +ℤ_comm, +ℤ_zero, +ℤ_assoc, +ℤ_cancel, eq-sub_of_add, if◌then◌else◌,
  get_elem?, Dict, wrap, IsInt, wrap-IsInt, wrap_add_left, wrap_sub_left,
}
use large_model_proxy.Services.{Instance}
use large_model_proxy.Services.Heap.{set}
use large_model_proxy.Resources.Amounts.{amount_of, held, held-take_amounts, held-release_amounts}
use large_model_proxy.Resources.{take_amounts, release_amounts}

abbrev pub share : (Instance → Bool) → String → Instance → ℤ
share holds r i = if holds i then amount_of r i.service.resource_requirements else pos 0

unfoldable pub total : (Instance → Bool) → String → List Instance → ℤ
total holds r [] = pos 0
total holds r (i ∷ is) = share holds r i +ℤ total holds r is

pub total-set :
    (holds : Instance → Bool) (r : String) (is : List Instance) (p : ℕ) (i j : Instance)
    → get_elem? is p ≡ some i
    → total holds r (set is p j) +ℤ share holds r i ≡ total holds r is +ℤ share holds r j
unfolding total
total-set holds r [] p i j h = cc
total-set holds r (x ∷ is) zero i j h =
    let e : x ≡ i = cc in rw e (+ℤ_flip (share holds r j) (total holds r is) (share holds r i))
total-set holds r (x ∷ is) (suc p) i j h =
    +ℤ_assoc (share holds r x) (total holds r (set is p j)) (share holds r i)
    ∙ ap (λ z. share holds r x +ℤ z) (total-set holds r is p i j h)
    ∙ sym (+ℤ_assoc (share holds r x) (total holds r is) (share holds r j))

pub total-append :
    (holds : Instance → Bool) (r : String) (is : List Instance) (i : Instance)
    → total holds r (is ++ i ∷ []) ≡ total holds r is +ℤ share holds r i
unfolding total
total-append holds r [] i = +ℤ_comm (share holds r i) (pos 0)
total-append holds r (x ∷ is) i =
    ap (λ z. share holds r x +ℤ z) (total-append holds r is i)
    ∙ sym (+ℤ_assoc (share holds r x) (total holds r is) (share holds r i))

-- The books hold, of each resource, what the instances of the group require, as a 64-bit sum.
abbrev pub Accounts : (Instance → Bool) → Dict ℤ → List Instance → Type 0
Accounts holds books is = (r : String) → held r books ≡ wrap (total holds r is)

held-IsInt :
    (holds : Instance → Bool) (books : Dict ℤ) (is : List Instance) (r : String)
    → Accounts holds books is
    → IsInt (held r books)
held-IsInt holds books is r h = rw (h r) (wrap-IsInt (total holds r is))

module _ (holds : Instance → Bool) (is : List Instance) (p : ℕ) (i j : Instance)
    (at_p : get_elem? is p ≡ some i) where
  pub total-keep :
      (r : String)
      → holds j ≡ holds i
      → j.service.resource_requirements ≡ i.service.resource_requirements
      → total holds r (set is p j) ≡ total holds r is
  total-keep r same reqs =
      eq-sub_of_add _ _ _ (total-set holds r is p i j at_p)
      ∙ rw (same, reqs) (+ℤ_cancel (total holds r is) (share holds r i))

  pub total-take :
      (r : String)
      → holds i ≡ false
      → holds j ≡ true
      → total holds r (set is p j) ≡ total holds r is +ℤ amount_of r j.service.resource_requirements
  total-take r out joins =
      sym (+ℤ_zero (total holds r (set is p j)))
      ∙ rw (out, joins) at (total-set holds r is p i j at_p)

  pub total-release :
      (r : String)
      → holds i ≡ true
      → holds j ≡ false
      → total holds r (set is p j) +ℤ amount_of r i.service.resource_requirements ≡ total holds r is
  total-release r within out =
      rw (within, out) at (total-set holds r is p i j at_p) ∙ +ℤ_zero (total holds r is)

module _ (holds : Instance → Bool) (books : Dict ℤ) (is : List Instance) (p : ℕ) (i j : Instance)
    (at_p : get_elem? is p ≡ some i) where
  -- An instance that changes within or outside the group.
  pub Accounts-keep :
      Accounts holds books is
      → holds j ≡ holds i
      → j.service.resource_requirements ≡ i.service.resource_requirements
      → Accounts holds books (set is p j)
  Accounts-keep h same reqs r = h r ∙ ap wrap (sym (total-keep holds is p i j at_p r same reqs))

  -- An instance that joins the group takes its amounts.
  pub Accounts-take :
      Accounts holds books is
      → holds i ≡ false
      → holds j ≡ true
      → Accounts holds (take_amounts j.service.resource_requirements books) (set is p j)
  Accounts-take h out joins r =
      let amount = amount_of r j.service.resource_requirements in
      held-take_amounts r j.service.resource_requirements books (held-IsInt holds books is r h)
      ∙ ap (λ z. wrap (z +ℤ amount)) (h r)
      ∙ wrap_add_left (total holds r is) amount
      ∙ ap wrap (sym (total-take holds is p i j at_p r out joins))

  -- One that leaves it gives them back.
  pub Accounts-release :
      Accounts holds books is
      → holds i ≡ true
      → holds j ≡ false
      → Accounts holds (release_amounts i.service.resource_requirements books) (set is p j)
  Accounts-release h within out r =
      let amount = amount_of r i.service.resource_requirements in
      held-release_amounts r i.service.resource_requirements books (held-IsInt holds books is r h)
      ∙ ap (λ z. wrap (z -ℤ amount)) (h r)
      ∙ wrap_sub_left (total holds r is) amount
      ∙ ap wrap (sym (eq-sub_of_add _ _ _ (total-release holds is p i j at_p r within out)))

pub Accounts-append :
    (holds : Instance → Bool) (books : Dict ℤ) (is : List Instance) (i : Instance)
    → Accounts holds books is
    → holds i ≡ false
    → Accounts holds books (is ++ i ∷ [])
Accounts-append holds books is i h out r =
    h r ∙ ap wrap (sym (total-append holds r is i ∙ rw out (+ℤ_zero (total holds r is))))

-- How one map of amounts follows an instance that changes.
pub data Change (holds : Instance → Bool) (i j : Instance) (books books' : Dict ℤ) : Type 0 where
  kept : holds j ≡ holds i → books' ≡ books → Change holds i j books books'
  taken :
      holds i ≡ false
      → holds j ≡ true
      → books' ≡ take_amounts j.service.resource_requirements books
      → Change holds i j books books'
  released :
      holds i ≡ true
      → holds j ≡ false
      → books' ≡ release_amounts i.service.resource_requirements books
      → Change holds i j books books'

pub Accounts-Change :
    (holds : Instance → Bool) (books books' : Dict ℤ) (is : List Instance) (p : ℕ) (i j : Instance)
    → Accounts holds books is
    → get_elem? is p ≡ some i
    → j.service ≡ i.service
    → Change holds i j books books'
    → Accounts holds books' (set is p j)
Accounts-Change holds books books' is p i j h at_p s (kept same e) =
    rw e (Accounts-keep holds books is p i j at_p h same (ap (λ t. t.resource_requirements) s))
Accounts-Change holds books books' is p i j h at_p s (taken out joins e) =
    rw e (Accounts-take holds books is p i j at_p h out joins)
Accounts-Change holds books books' is p i j h at_p s (released within out e) =
    rw e (Accounts-release holds books is p i j at_p h within out)

-- A change seen from an earlier state of the instance, or into equal books.
pub Change-source :
    (holds : Instance → Bool) (h i j : Instance) (books books' : Dict ℤ)
    → holds i ≡ holds h
    → i.service ≡ h.service
    → Change holds i j books books'
    → Change holds h j books books'
Change-source holds h i j books books' w s (kept same e) = kept (same ∙ w) e
Change-source holds h i j books books' w s (taken out joins e) = taken (sym w ∙ out) joins e
Change-source holds h i j books books' w s (released within out e) =
    released (sym w ∙ within) out (e ∙ ap (λ t. release_amounts t.resource_requirements books) s)

pub Change-target :
    (holds : Instance → Bool) (i j k : Instance) (books books' books'' : Dict ℤ)
    → holds k ≡ holds j
    → k.service ≡ j.service
    → books'' ≡ books'
    → Change holds i j books books'
    → Change holds i k books books''
Change-target holds i j k books b b' w s q (kept same e) = kept (w ∙ same) (q ∙ e)
Change-target holds i j k books b b' w s q (taken out joins e) =
    taken out (w ∙ joins) (q ∙ e ∙ ap (λ t. take_amounts t.resource_requirements books) (sym s))
Change-target holds i j k books b b' w s q (released within out e) =
    released within (w ∙ out) (q ∙ e)
