-- ===== src/Signup/Guarded.antt =====
-- What a sign-up opens, and to whom.
use text.Mathlib.Text.{◌==◌ as str_eq}
use les_traiteurs_engages_v.Accounts.{Characters, PasswordError, validate_password}
use les_traiteurs_engages_v.Accounts.Policy.{IsStrong, validate_password-IsStrong}
use les_traiteurs_engages_v.Base.{
  ◌>>◌, ◌>>=◌, arith, fetch, ℕ, Ensures, Ensures-map, Option, String, exists, fail, false,
  fetch-Ensures, gets, gets-Ensures, if◌then◌else◌, modify-Ensures, none, raise_if,
  raise_if-Ensures, refl, return, return-Ensures, some, strip, subst, sym, then-Ensures, true, ◌≡◌,
}
use les_traiteurs_engages_v.Models.{TermsVersion, Company, Database}
use les_traiteurs_engages_v.Notifications.{notify_users}
use les_traiteurs_engages_v.PasswordReset.{Hashes}
use les_traiteurs_engages_v.Terms.{current_terms_version, is_terms_accepted}
use les_traiteurs_engages_v.Terms.Current.{HasAccepted, current_terms_version-IsCurrent}
use les_traiteurs_engages_v.Signup.{
  slugs_of, Draws, Entry, Signing, SignupError, SignupForm, SignupReply, bad_role, check_policy,
  clean_email, client_side, company_by_siret, email_taken, found_company, join_company, new_caterer,
  new_company, no_terms_version, open_account, open_kitchen, signup,
}
use les_traiteurs_engages_v.Signup.Outcomes.{new_user, Guarded, kept_out, prefix-new}

module _ (c : Characters) (form : SignupForm) (entry : Entry) (db : Database)
    (free : exists (λ u. str_eq u.email (clean_email c form)) db.users ≡ false) where
  Bad : SignupError → Database → Type 0
  Bad e s = s ≡ db

  Good : SignupReply → Database → Type 0
  Good reply s =
      Guarded c form db reply s
      × ((new_user reply).terms_accepted_version_id ≡ some entry.active_terms.id)
      × ((new_user reply).terms_accepted_at ≡ some entry.accepted_at)

  join-Guarded :
      (company : Company)
      → company_by_siret (strip form.siret) db ≡ some company
      → Ensures Bad Good (join_company c form entry company db)
  unfolding join_company notify_users Good Bad
  join-Guarded company known = gets-Ensures Bad Good _ _ _ (
      modify-Ensures Bad Good _ _ _ (
        modify-Ensures Bad Good _ _ _ (
          return-Ensures Bad Good _ _ (
            record {
              company = company;
              company_known = known;
              of_company = refl;
              is_pending = refl;
              users_grow = refl;
              same_companies = refl;
              no_entry = λ check password cookie.
                  kept_out c check form password _ cookie db _ refl refl free refl;
            },
            refl,
            refl,
          ))))

  found-Guarded :
      company_by_siret (strip form.siret) db ≡ none
      → Ensures Bad Good (found_company c form entry db)
  unfolding found_company Good Bad
  found-Guarded unknown = gets-Ensures Bad Good _ _ _ (
      modify-Ensures Bad Good _ _ _ (
        gets-Ensures Bad Good _ _ _ (
          modify-Ensures Bad Good _ _ _ (
            gets-Ensures Bad Good _ _ _ (
              modify-Ensures Bad Good _ _ _ (
                gets-Ensures Bad Good _ _ _ (
                  modify-Ensures Bad Good _ _ _ (
                    return-Ensures Bad Good _ _ (
                      record {
                        company = new_company (strip form.siret) (db.uuid4 db.drawn);
                        company_new = unknown;
                        companies_grow = refl;
                        of_siret = refl;
                        of_company = refl;
                        is_admin = refl;
                        users_grow = refl;
                        employee = _;
                        employees_grow = refl;
                        is_employee = (refl, refl);
                        stamped = refl;
                      },
                      refl,
                      refl,
                    )))))))))

  kitchen-Guarded : (draws : Draws) → Ensures Bad Good (open_kitchen c draws form entry db)
  unfolding open_kitchen notify_users Good Bad
  kitchen-Guarded draws =
      raise_if-Ensures Bad Good _ _ _ _ (λ _. refl)
        λ named.
          fetch-Ensures Bad Good _ _ _ _ (λ _. refl)
            λ prefix drawn. gets-Ensures Bad Good _ _ _ (
              modify-Ensures Bad Good _ _ _ (
                gets-Ensures Bad Good _ _ _ (
                  modify-Ensures Bad Good _ _ _ (
                    modify-Ensures Bad Good _ _ _ (
                      return-Ensures Bad Good _ _ (
                        record {
                          caterer = new_caterer form prefix (db.uuid4 db.drawn);
                          prefix = prefix;
                          caterers_grow = refl;
                          not_validated = refl;
                          has_prefix = refl;
                          prefix_new = prefix-new (slugs_of draws) db prefix drawn;
                          of_caterer = refl;
                          users_grow = refl;
                          stamped = refl;
                        },
                        refl,
                        refl,
                      ))))))

  client_side-Guarded :
      (found : Option Company)
      → company_by_siret (strip form.siret) db ≡ found
      → Ensures Bad Good (client_side c form entry found db)
  client_side-Guarded none h = found-Guarded h
  client_side-Guarded (some company) h = join-Guarded company h

  open_account-Guarded :
      (draws : Draws)
      → Ensures Bad Good
          (open_account c draws form entry (company_by_siret (strip form.siret) db) db)
  unfolding Good Bad fail
  open_account-Guarded draws =
      elim (str_eq form.role "client_admin")
        as (λ b. Ensures Bad Good (
          (if b
              then client_side c form entry (company_by_siret (strip form.siret) db)
              else if str_eq form.role "caterer"
              then open_kitchen c draws form entry
              else fail bad_role)
            db)) [
              | true ↦ client_side-Guarded (company_by_siret (strip form.siret) db) refl
              | false ↦
                  elim (str_eq form.role "caterer")
                    as (λ b.
                      Ensures Bad Good
                        ((if b then open_kitchen c draws form entry else fail bad_role) db)) [
                          | true ↦ kitchen-Guarded draws
                          | false ↦ refl
                        ]
            ]

check_policy-Ensures :
    (v : Option PasswordError) (db : Database)
    → Ensures (λ e s. s ≡ db) (λ u s. (s ≡ db) × (v ≡ none)) (check_policy v db)
unfolding check_policy return fail
check_policy-Ensures none db = (refl, refl)
check_policy-Ensures (some error) db = refl

-- A refused sign-up changes nothing. One that succeeds is under an address that no user had, with a
-- password of twelve characters and of three of the four classes that is no common one, by somebody
-- who has ticked the box and so accepted the version of the terms in force, and adds one user. If the SIRET is that of a company, the account waits
-- in it, and no login opens a session for it, with any password; if not, it founds the company as its
-- administrator, with a row on its staff; and a caterer's account comes with a caterer who is not
-- validated and has a prefix of its own.
pub signup-Guarded :
    (c : Characters) (hashes : Hashes) (salt : String) (draws : Draws) (today now : ℕ)
    (form : SignupForm) (db : Database)
    → Ensures
        (λ e s. s ≡ db)
        (λ reply s.
          (exists (λ u. str_eq u.email (clean_email c form)) db.users ≡ false)
          × IsStrong c form.password
          × (is_terms_accepted c.lower form.accept_terms ≡ true)
          × HasAccepted today now db (new_user reply)
          × Guarded c form db reply s)
        (signup c hashes salt draws today now form db)
unfolding signup Good Bad
signup-Guarded c hashes salt draws today now form db =
    raise_if-Ensures Ends Opens _ _ _ _ (λ _. refl)
      λ complete.
        raise_if-Ensures Ends Opens _ _ _ _ (λ _. refl)
          λ accepted.
            raise_if-Ensures Ends Opens _ _ _ _ (λ _. refl)
              λ numbered.
                then-Ensures Ends (λ u s. (s ≡ db) × (validate_password c form.password ≡ none))
                  Opens _ _ _ (check_policy-Ensures (validate_password c form.password) db)
                  λ s fine.
                    subst (λ d. Ensures Ends Opens (rest d)) (sym fine.0)
                      (fetch-Ensures Ends Opens _ _ _ _ (λ _. refl)
                        λ terms in_force. gets-Ensures Ends Opens _ _ _ (
                          gets-Ensures Ends Opens _ _ _ (
                            raise_if-Ensures Ends Opens _ _ _ _ (λ _. refl)
                              λ free.
                                Ensures-map
                                  (open_account c draws form (entry_of terms)
                                    (company_by_siret (strip form.siret) db) db)
                                  (λ e d h. h)
                                  (λ reply d g. (
                                    free,
                                    validate_password-IsStrong c form.password fine.1,
                                    ground (arith, accepted),
                                    agreed terms reply in_force (g.1, g.2),
                                    g.0,
                                  ))
                                  (open_account-Guarded c form (entry_of terms) db free draws))))
  where
    Ends : SignupError → Database → Type 0
    Ends e s = s ≡ db

    Opens : SignupReply → Database → Type 0
    Opens reply s =
        (exists (λ u. str_eq u.email (clean_email c form)) db.users ≡ false)
        × IsStrong c form.password
        × (is_terms_accepted c.lower form.accept_terms ≡ true)
        × HasAccepted today now db (new_user reply)
        × Guarded c form db reply s

    entry_of : TermsVersion → Entry
    entry_of terms = record {
      password_hash = hashes.hashpw form.password salt;
      active_terms = terms;
      accepted_at = now;
    }

    agreed :
        (terms : TermsVersion) (reply : SignupReply)
        → current_terms_version today db ≡ some terms
        → ((new_user reply).terms_accepted_version_id ≡ some terms.id)
          × ((new_user reply).terms_accepted_at ≡ some now)
        → HasAccepted today now db (new_user reply)
    agreed terms reply in_force signed = record {
      terms = terms;
      is_current = current_terms_version-IsCurrent today db terms in_force;
      of_version = signed.0;
      at_time = signed.1;
    }

    rest : Signing SignupReply
    rest = do
      active_terms ← fetch (current_terms_version today) no_terms_version
      taken ← gets (λ db. exists (λ u. str_eq u.email (clean_email c form)) db.users)
      company ← gets (company_by_siret (strip form.siret))
      raise_if taken email_taken
      open_account c draws form (entry_of active_terms) company
