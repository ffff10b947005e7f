-- ===== src/Examples/People.antt =====
-- Passwords, sessions and the rows that people see, on a town of five users.
use les_traiteurs_engages_v.Base.{
  Ensures, List, Option, String, [], arith, fetch, find, modify, none, raise, raise_if, refl,
  return, some, true, update_first, ℕ, ◌>>=◌, ◌>>◌, ◌∷◌, ◌≡◌,
}
use les_traiteurs_engages_v.Examples.Samples.{buyer, cook, shop}
use les_traiteurs_engages_v.Examples.Toys.{keep_text, toy_hashes}
use les_traiteurs_engages_v.Models.{
  CompanyEmployee, CompanyService, Database, Order, QuoteRequest, User, UserRole,
}
use les_traiteurs_engages_v.PasswordReset.{
  ResetMail, consume_token, issue_token, kick_off_reset, reset_token_invalid,
}
use les_traiteurs_engages_v.PasswordReset.Once.{ResetAction, consume_token_once, perform_resets}
use les_traiteurs_engages_v.Reviews.{is_ok}
use les_traiteurs_engages_v.Scoping.{
  get_company_employee, get_company_order, get_company_request, get_company_service,
}
use les_traiteurs_engages_v.Scoping.Client.{CompanyKeys, company_rows_apart}

abbrev pub mate : User
mate = record buyer { id = 101; email = "m@b.fr"; role = UserRole.client_user }

abbrev pub rival_cook : User
rival_cook = record cook { id = 201; email = "r@c.fr"; caterer_id = some 61 }

abbrev pub stranger : User
stranger = record buyer { id = 300; email = "s@d.fr"; company_id = some 51 }

abbrev pub town : Database
town = record shop { users = buyer ∷ mate ∷ cook ∷ rival_cook ∷ stranger ∷ [] }

abbrev mailed : Option ResetMail × Database
mailed = kick_off_reset toy_hashes keep_text "https://lte" "t1" 1000 "a@b.fr" town

abbrev after_mail : Database
after_mail = issue_token toy_hashes "t1" 1000 buyer town

link_is_redeemed :
    is_ok (consume_token toy_hashes "salt" "t1" "Secret" 1600 1601 after_mail).0 ≡ true
unfolding consume_token issue_token find fetch raise_if modify return update_first ◌>>=◌ ◌>>◌
link_is_redeemed = refl

consume_token_once_example :
    Ensures
      (λ e s. s ≡ after_mail)
      (λ user s.
        (between : List ResetAction) (salt password : String) (checked now : ℕ)
        → let later = perform_resets toy_hashes keep_text "https://lte" between s in
          consume_token toy_hashes salt "t1" password checked now later
          ≡ (raise reset_token_invalid, later))
      (consume_token toy_hashes "salt" "t1" "Secret" 1600 1601 after_mail)
consume_token_once_example =
    consume_token_once toy_hashes keep_text "https://lte" "salt" "t1" "Secret" 1600 1601 after_mail

town_keys : CompanyKeys town
town_keys = (omega arith, omega arith, tt, tt)

company_rows_apart_example :
    ((r : QuoteRequest)
      → get_company_request 1 mate town ≡ some r
      → get_company_request 1 stranger town ≡ none)
    × ((o : Order)
        → get_company_order 1 mate town ≡ some o
        → get_company_order 1 stranger town ≡ none)
    × ((s : CompanyService)
        → get_company_service 1 mate.company_id town ≡ some s
        → get_company_service 1 stranger.company_id town ≡ none)
    × ((e : CompanyEmployee)
        → get_company_employee 1 mate.company_id town ≡ some e
        → get_company_employee 1 stranger.company_id town ≡ none)
company_rows_apart_example =
    company_rows_apart mate stranger 50 51 1 town town_keys refl refl (omega arith)

colleague_is_blind : get_company_order 31 mate town ≡ none
unfolding get_company_order find
colleague_is_blind = refl
