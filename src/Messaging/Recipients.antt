-- ===== src/Messaging/Recipients.antt =====
-- Who may be reached in a context.
use les_traiteurs_engages_v.Base.{
  ==_iff, Bool, Bool-cases, IsKeyed, List, Mem, Option, Option-cases, [], ap, arith, exists, false,
  find, find-Mem, if◌then◌else◌, inl, inr, is_id, map, none, not, refl, select, some, subst, sym,
  true, ℕ, ◌++◌, ◌==◌, ◌∙◌, ◌∷◌, ◌≡◌, ◌≢◌, ◌⊎◌,
}
use les_traiteurs_engages_v.Messaging.{
  Parties, all_recipients, allowed_recipients_for, company_side, has, ids_where, parties_of,
  user_in_caterers, user_in_company,
}
use les_traiteurs_engages_v.Models.{Database, User}
use les_traiteurs_engages_v.Notifications.{is_one_of}
use les_traiteurs_engages_v.Scoping.{is_same_id}

-- The two ways in which a context lets a user write to another.
abbrev FromCompany : User → User → Parties → Type 0
FromCompany user target p =
    (user_in_company user p ≡ true)
    × ((is_one_of target.caterer_id p.caterer_ids ≡ true)
        ⊎ (is_same_id target.company_id p.company_id ≡ true))

abbrev FromCaterer : User → User → Parties → Type 0
FromCaterer user target p =
    (user_in_caterers user p ≡ true)
    × ((is_same_id target.company_id p.company_id ≡ true)
        ⊎ (is_same_id target.caterer_id user.caterer_id ≡ true))

record Reach (user : User) (x : ℕ) (order_id quote_request_id : Option ℕ) (db : Database)
    : Type 0 where
  pub parties : Parties
  pub target : User
  pub context_found : parties_of order_id quote_request_id db ≡ some parties
  pub target_known : Mem target db.users
  pub target_id : target.id ≡ x
  pub not_self : x ≢ user.id
  pub relation : FromCompany user target parties ⊎ FromCaterer user target parties

-- A user of the table with the identifier that meets the condition.
abbrev Row : (User → Bool) → List User → ℕ → Type 0
Row t us x = (u : User) × Mem u us × (u.id ≡ x) × (t u ≡ true)

has-append :
    (xs ys : List ℕ) (x : ℕ) → has (xs ++ ys) x ≡ true → (has xs x ≡ true) ⊎ (has ys x ≡ true)
unfolding exists
has-append [] ys x h = inr h
has-append (y ∷ xs) ys x h = elim (Bool-cases (y == x)) [
  | inl e ↦ inl (rw e refl)
  | inr e ↦ rw e (has-append xs ys x (rw e at h))
]

has-select :
    (t : ℕ → Bool) (xs : List ℕ) (x : ℕ)
    → has (select t xs) x ≡ true
    → (has xs x ≡ true) × (t x ≡ true)
unfolding exists select
has-select t [] x h = cc
has-select t (y ∷ xs) x h = ground (arith, has-select t xs x)

has-ids :
    (t : User → Bool) (us : List User) (x : ℕ)
    → has (map (λ u. u.id) (select t us)) x ≡ true
    → Row t us x
unfolding exists select
has-ids t [] x h = cc
has-ids t (u ∷ us) x h = elim (Bool-cases (t u)) [
  | inl y ↦ elim (Bool-cases (u.id == x)) [
    | inl same ↦ (u, Mem.head refl, (==_iff u.id x).0 same, y)
    | inr other ↦ later (has-ids t us x (rw other at rw y at h))
  ]
  | inr n ↦ later (has-ids t us x (rw n at h))
]
  where
    later : Row t us x → Row t (u ∷ us) x
    later (v, m, same, y) = (v, Mem.tail m, same, y)

has-none : (x : ℕ) → has [] x ≡ true → false ≡ true
unfolding exists
has-none x e = e

side_of :
    (c : Option ℕ) (x : ℕ) (db : Database)
    → has (elim c [ none ↦ [] | some k ↦ ids_where (λ u. is_id u.company_id k) db ]) x ≡ true
    → Row (λ u. is_same_id u.company_id c) db.users x
side_of none x db h = cc (has-none x h)
side_of (some k) x db h = has-ids (λ u. is_id u.company_id k) db.users x h

module _ (user : User) (p : Parties) (x : ℕ) (db : Database) where
  -- What one of the two sides gives for a row.
  Given : Type 0
  Given = (u : User) × Mem u db.users × (u.id ≡ x) × (FromCompany user u p ⊎ FromCaterer user u p)

  from_company :
      user_in_company user p ≡ true
      → has
          ((if exists (λ c. true) p.caterer_ids
              then ids_where (λ u. is_one_of u.caterer_id p.caterer_ids) db
              else [])
            ++ company_side p db)
          x
        ≡ true
      → Given
  unfolding Given
  from_company inside h =
      elim (has-append
        (if exists (λ c. true) p.caterer_ids
          then ids_where (λ u. is_one_of u.caterer_id p.caterer_ids) db
          else [])
        (company_side p db) x h) [
          | inl k ↦
              let (u, m, same, t) = kitchens (exists (λ c. true) p.caterer_ids) k in
              (u, m, same, inl (inside, inl t))
          | inr k ↦
              let (u, m, same, t) = side_of p.company_id x db k in (u, m, same, inl (inside, inr t))
        ]
    where
      kitchens :
          (b : Bool)
          → has (if b then ids_where (λ u. is_one_of u.caterer_id p.caterer_ids) db else []) x
            ≡ true
          → Row (λ u. is_one_of u.caterer_id p.caterer_ids) db.users x
      kitchens true e = has-ids (λ u. is_one_of u.caterer_id p.caterer_ids) db.users x e
      kitchens false e = cc (has-none x e)

  from_caterer :
      user_in_caterers user p ≡ true
      → has (company_side p db ++ ids_where (λ u. is_same_id u.caterer_id user.caterer_id) db) x
        ≡ true
      → Given
  unfolding Given
  from_caterer inside h =
      elim (has-append (company_side p db)
        (ids_where (λ u. is_same_id u.caterer_id user.caterer_id) db) x h) [
          | inl k ↦
              let (u, m, same, t) = side_of p.company_id x db k in (u, m, same, inr (inside, inl t))
          | inr k ↦
              let (u, m, same, t) =
                has-ids (λ u. is_same_id u.caterer_id user.caterer_id) db.users x k in
              (u, m, same, inr (inside, inr t))
        ]

  given : has (all_recipients user p db) x ≡ true → Given
  given h = elim (Bool-cases (user_in_company user p)) [
    | inl inside ↦ from_company inside (rw inside at h)
    | inr outside ↦ elim (Bool-cases (user_in_caterers user p)) [
      | inl kitchen ↦ from_caterer kitchen (rw kitchen at rw outside at h)
      | inr stranger ↦ cc (has-none x (rw stranger at rw outside at h))
    ]
  ]

-- Whoever is among the recipients allowed in a context is another user than the sender, with a row
-- in the table; the context exists and brings its parties together; and either the sender is of its
-- company, and the recipient of a caterer solicited or of the company, or the sender is of a caterer
-- solicited, and the recipient of the company or of the sender's own caterer.
allowed_recipients-Reach :
    (user : User) (order_id quote_request_id : Option ℕ) (x : ℕ) (db : Database)
    → has (allowed_recipients_for user order_id quote_request_id db) x ≡ true
    → Reach user x order_id quote_request_id db
unfolding allowed_recipients_for Given
allowed_recipients-Reach user order_id quote_request_id x db h =
    elim (Option-cases (parties_of order_id quote_request_id db)) [
      | inl missing ↦ cc (has-none x (subst (λ f. has (allowed f) x ≡ true) missing h))
      | inr (p, found) ↦
          let (member, other) =
            has-select (λ i. not (i == user.id)) (all_recipients user p db) x
              (subst (λ f. has (allowed f) x ≡ true) found h) in
          let (u, m, same, relation) = given user p x db member in
          record {
            parties = p;
            target = u;
            context_found = found;
            target_known = m;
            target_id = same;
            not_self = λ e. ground (arith, other, e);
            relation = relation;
          }
    ]
  where
    allowed : Option Parties → List ℕ
    allowed f = elim f [
      | none ↦ []
      | some p ↦ select (λ i. not (i == user.id)) (all_recipients user p db)
    ]

-- In no context is a caterer's user allowed to write to the user of a rival: two users of different
-- caterers and of no company, where identifiers of users are distinct.
pub rivals_apart :
    (user rival : User) (mine theirs : ℕ) (order_id quote_request_id : Option ℕ) (db : Database)
    → IsKeyed (λ (u : User). u.id) db.users
    → user.company_id ≡ none
    → user.caterer_id ≡ some mine
    → find (λ u. u.id == rival.id) db.users ≡ some rival
    → rival.company_id ≡ none
    → rival.caterer_id ≡ some theirs
    → mine ≢ theirs
    → has (allowed_recipients_for user order_id quote_request_id db) rival.id ≡ false
rivals_apart user rival mine theirs order_id quote_request_id db keyed a b there c d differs =
    elim (Bool-cases (has (allowed_recipients_for user order_id quote_request_id db) rival.id)) [
      | inr n ↦ n
      | inl y ↦
          absurd (refused (allowed_recipients-Reach user order_id quote_request_id rival.id db y))
    ]
  where
    from_none : (o : Option ℕ) → is_same_id none o ≡ true → ⊥
    from_none none e = cc
    from_none (some k) e = cc

    teammates : (k l : ℕ) → is_same_id (some k) (some l) ≡ true → k ≡ l
    teammates k l e = (==_iff k l).0 e

    refused : Reach user rival.id order_id quote_request_id db → ⊥
    refused r =
        let same =
          find-Mem (λ (u : User). u.id) rival.id db.users r.target rival keyed r.target_known
            r.target_id there in
        elim r.relation [
          | inl (inside, _) ↦
              from_none r.parties.company_id
                (subst (λ o. is_same_id o r.parties.company_id ≡ true) a inside)
          | inr (_, inl company) ↦ from_none r.parties.company_id (
              subst (λ o. is_same_id o r.parties.company_id ≡ true)
                (ap (λ u. u.company_id) same ∙ c) company)
          | inr (_, inr mates) ↦ differs (
              sym (
                teammates theirs mine (
                  subst (λ o. is_same_id o (some mine) ≡ true) (ap (λ u. u.caterer_id) same ∙ d)
                    (subst (λ o. is_same_id r.target.caterer_id o ≡ true) b mates))))
        ]
