-- ===== src/Lifecycle/Machine.antt =====
-- The abstract machine of an order's status, and tables of orders that follow it.
use les_traiteurs_engages_v.Base.{
  All, Bool, Bool-cases, List, [], find, inl, inr, refl, some, some_inj, subst, sym, update_first,
  ◌++◌, ◌∙◌, ◌∷◌, ◌≡◌,
}
use les_traiteurs_engages_v.Models.{Order, OrderStatus}

-- A confirmed order is delivered, a delivered one invoiced (through `invoicing` where the old task
-- left it), and any may be paid, since the webhook takes Stripe's word for it. Nothing turns back.
pub data Next : OrderStatus → OrderStatus → Type 0 where
  hand_over : {s t : OrderStatus} → s ≡ OrderStatus.confirmed → t ≡ OrderStatus.delivered → Next s t
  bill : {s t : OrderStatus} → s ≡ OrderStatus.delivered → t ≡ OrderStatus.invoiced → Next s t
  resume : {s t : OrderStatus} → s ≡ OrderStatus.invoicing → t ≡ OrderStatus.invoiced → Next s t
  collect : {s t : OrderStatus} → t ≡ OrderStatus.paid → Next s t

pub data Reaches (s : OrderStatus) : OrderStatus → Type 0 where
  here : Reaches s s
  next : {t u : OrderStatus} → Reaches s t → Next t u → Reaches s u

Reaches-trans : {s t u : OrderStatus} → Reaches s t → Reaches t u → Reaches s u
Reaches-trans r here = r
Reaches-trans r (next q n) = next (Reaches-trans r q) n

pub Next-Reaches : {s t : OrderStatus} → Next s t → Reaches s t
Next-Reaches n = next here n

-- The same order, for the same quote, at a status that the machine reaches.
abbrev Follows : Order → Order → Type 0
Follows o p = (p.id ≡ o.id) × (p.quote_id ≡ o.quote_id) × Reaches o.status p.status

abbrev IsBorn : Order → Type 0
IsBorn p = Reaches OrderStatus.confirmed p.status

-- No order is lost or moved; what is appended was born confirmed.
abbrev pub Evolves : List Order → List Order → Type 0
Evolves [] ps = All IsBorn ps
Evolves (o ∷ os) [] = ⊥
Evolves (o ∷ os) (p ∷ ps) = Follows o p × Evolves os ps

Follows-refl : (o : Order) → Follows o o
Follows-refl o = (refl, refl, here)

pub Evolves-refl : (os : List Order) → Evolves os os
Evolves-refl [] = tt
Evolves-refl (o ∷ os) = (Follows-refl o, Evolves-refl os)

All-Evolves : (os ps : List Order) → All IsBorn os → Evolves os ps → All IsBorn ps
All-Evolves [] ps b h = h
All-Evolves (o ∷ os) [] b h = absurd h
All-Evolves (o ∷ os) (p ∷ ps) b h = (Reaches-trans b.0 h.0.2, All-Evolves os ps b.1 h.1)

pub Evolves-trans : (os ps qs : List Order) → Evolves os ps → Evolves ps qs → Evolves os qs
Evolves-trans [] ps qs h k = All-Evolves ps qs h k
Evolves-trans (o ∷ os) [] qs h k = absurd h
Evolves-trans (o ∷ os) (p ∷ ps) [] h k = absurd k
Evolves-trans (o ∷ os) (p ∷ ps) (q ∷ qs) h k =
    ((k.0.0 ∙ h.0.0, k.0.1 ∙ h.0.1, Reaches-trans h.0.2 k.0.2), Evolves-trans os ps qs h.1 k.1)

-- The row that is found takes a step.
pub Evolves-update_found :
    (t : Order → Bool) (f : Order → Order) (os : List Order) (a : Order)
    → find t os ≡ some a
    → Follows a (f a)
    → Evolves os (update_first t f os)
unfolding find update_first
Evolves-update_found t f [] a e h = tt
Evolves-update_found t f (o ∷ os) a e h = elim (Bool-cases (t o)) [
  | inl y ↦ rw y (subst (λ z. Follows z (f z)) (sym (some_inj (rw y at e))) h, Evolves-refl os)
  | inr n ↦ rw n (Follows-refl o, Evolves-update_found t f os a (rw n at e) h)
]

-- Whatever row is written, the step is one that every row may take.
pub Evolves-update_first :
    (t : Order → Bool) (f : Order → Order) (os : List Order)
    → ((o : Order) → Follows o (f o))
    → Evolves os (update_first t f os)
unfolding update_first
Evolves-update_first t f [] h = tt
Evolves-update_first t f (o ∷ os) h = elim (Bool-cases (t o)) [
  | inl y ↦ rw y (h o, Evolves-refl os)
  | inr n ↦ rw n (Follows-refl o, Evolves-update_first t f os h)
]

pub Evolves-append :
    (os : List Order) (p : Order) → p.status ≡ OrderStatus.confirmed → Evolves os (os ++ p ∷ [])
Evolves-append [] p h = (subst (λ s. Reaches OrderStatus.confirmed s) (sym h) here, tt)
Evolves-append (o ∷ os) p h = (Follows-refl o, Evolves-append os p h)

pub Evolves-same : (os ps : List Order) → ps ≡ os → Evolves os ps
Evolves-same os ps e = subst (λ z. Evolves os z) (sym e) (Evolves-refl os)
