-- ===== src/Examples/Newcomers.antt =====
-- Sign-ups by SIRET in the town, where the buyer's company is known.
use text.Mathlib.Text.{◌==◌ as str_eq}
use les_traiteurs_engages_v.Accounts.{any_char, classes, validate_password}
use les_traiteurs_engages_v.Accounts.Policy.{IsStrong}
use les_traiteurs_engages_v.Base.{
  ◌==◌, if◌then◌else◌, if◌then◌else◌, fetch, Ensures, Result, String, [], arith, exists, false,
  find, gets, map, modify, none, raise_if, refl, return, select, some, strip, true, ◌>>=◌, ◌>>◌,
  ◌∷◌, ◌≡◌,
}
use les_traiteurs_engages_v.Examples.People.{town}
use les_traiteurs_engages_v.Examples.Toys.{toy_characters, toy_hashes}
use les_traiteurs_engages_v.Models.{Company, Database, is_pending_member}
use les_traiteurs_engages_v.Notifications.{company_admin_user_ids, notes_from, notify_users}
use les_traiteurs_engages_v.Signup.{
  slugs_of, first_free, Draws, SignupError, SignupForm, SignupReply, check_policy, clean_email,
  generate_invoice_prefix, is_bad_siret, join_company, signup,
}
use les_traiteurs_engages_v.Signup.Guarded.{signup-Guarded}
use les_traiteurs_engages_v.Terms.{first_of, is_terms_accepted}
use les_traiteurs_engages_v.Terms.Current.{HasAccepted}
use les_traiteurs_engages_v.Signup.Outcomes.{new_user, Guarded}
use les_traiteurs_engages_v.Signup.Prefix.{generate_invoice_prefix_ends, is_taken}

abbrev atelier : Company
atelier = record { id = 50; name = "Atelier"; siret = "12345678901234"; logo_url = none }

abbrev known_town : Database
known_town = record town { companies = atelier ∷ [] }

abbrev newcomer : SignupForm
newcomer = record {
  role = "client_admin";
  email = " new@b.fr ";
  password = "Secret-1234567";
  first_name = "Zoe";
  last_name = "Z";
  siret = "12345678901234";
  accept_terms = some " on ";
  caterer_name = "";
  structure_type = "";
}

abbrev toy_draws : Draws
toy_draws = record {
  choices = λ k. if k == 5 then "FOURN" else if k == 8 then "ABCDEFGH" else "ABCDEFGHIJ";
  randints = [];
}

abbrev joined : Result SignupError SignupReply × Database
joined = signup toy_characters toy_hashes "salt" toy_draws 20 2000 newcomer known_town

signup-Guarded_example :
    Ensures
      (λ e s. s ≡ known_town)
      (λ reply s.
        (exists (λ u. str_eq u.email (clean_email toy_characters newcomer)) known_town.users
          ≡ false)
        × IsStrong toy_characters newcomer.password
        × (is_terms_accepted toy_characters.lower newcomer.accept_terms ≡ true)
        × HasAccepted 20 2000 known_town (new_user reply)
        × Guarded toy_characters newcomer known_town reply s)
      joined
signup-Guarded_example =
    signup-Guarded toy_characters toy_hashes "salt" toy_draws 20 2000 newcomer known_town

newcomer_is_pending :
    map (λ u. is_pending_member u.membership_status) joined.1.users
    ≡ false ∷ false ∷ false ∷ false ∷ false ∷ true ∷ []
unfolding signup is_terms_accepted first_of fetch is_bad_siret check_policy join_company
    company_admin_user_ids notify_users notes_from validate_password classes any_char find select
    gets raise_if modify return exists strip ◌>>=◌ ◌>>◌
newcomer_is_pending = refl

administrator_is_told : map (λ n. n.user_id) joined.1.notifications ≡ 100 ∷ []
unfolding signup is_terms_accepted first_of fetch is_bad_siret check_policy join_company
    company_admin_user_ids notify_users notes_from validate_password classes any_char find select
    gets raise_if modify return exists strip ◌>>=◌ ◌>>◌
administrator_is_told = refl

-- Two caterers, and three draws of which the first is taken.
generate_invoice_prefix_ends_example :
    (slug : String) × (generate_invoice_prefix toy_draws town ≡ some slug)
    × (exists (λ s. str_eq s slug) (slugs_of toy_draws) ≡ true)
    × (is_taken slug town.caterers ≡ false)
generate_invoice_prefix_ends_example =
    generate_invoice_prefix_ends toy_draws town ((refl, (refl, tt)), ((refl, tt), (tt, tt)))
      (omega arith)

taken_prefix_is_skipped : generate_invoice_prefix toy_draws town ≡ some "ABCDEFGH"
unfolding first_free exists
taken_prefix_is_skipped = refl
