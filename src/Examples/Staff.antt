-- ===== src/Examples/Staff.antt =====
-- The team page and the invitations on an office of the town.
use les_traiteurs_engages_v.Accounts.{any_char, classes, validate_password}
use les_traiteurs_engages_v.Base.{
  strip, select, Ensures, List, Result, [], arith, count, delete_first, exists, fetch, find, gets,
  modify, none, raise_if, refl, return, some, true, update_first, ◌+++◌, ◌>>=◌, ◌>>◌, ◌∷◌, ◌≡◌,
}
use les_traiteurs_engages_v.Examples.People.{stranger, town}
use les_traiteurs_engages_v.Examples.Samples.{buyer}
use les_traiteurs_engages_v.Examples.Toys.{toy_characters, toy_hashes}
use les_traiteurs_engages_v.Models.{CompanyEmployee, Database, MembershipStatus, User, UserRole}
use les_traiteurs_engages_v.Notifications.{notify}
use les_traiteurs_engages_v.Reviews.{is_ok}
use les_traiteurs_engages_v.Scoping.{get_company_employee, get_pending_user}
use les_traiteurs_engages_v.Team.{team_employee_delete}
use les_traiteurs_engages_v.Team.Memberships.{team_approve}
use les_traiteurs_engages_v.Terms.{first_of, is_terms_accepted}
use les_traiteurs_engages_v.Team.Invitations.{
  InviteError, check_password, resolve_invite, signup_invite,
}
use les_traiteurs_engages_v.Team.Invited.{Joined, signup_invite_once}
use les_traiteurs_engages_v.Team.Isolated.{perform_team-SameRows}
use les_traiteurs_engages_v.Team.Isolated.Rows.{SameRows}
use les_traiteurs_engages_v.Team.Linked.{
  StaffAction, joins, on_team, perform_staff, perform_staff-AllSettled,
}
use les_traiteurs_engages_v.Team.Settled.{AllSettled}
use les_traiteurs_engages_v.Team.Run.{
  approve_user, delete_employee, handler, invite_employee, perform_team,
}

abbrev applicant : User
applicant = record buyer {
  id = 102;
  email = "p@b.fr";
  role = UserRole.client_user;
  membership_status = some MembershipStatus.pending;
}

abbrev invited_row : CompanyEmployee
invited_row = record {
  id = 81;
  company_id = 50;
  service_id = none;
  first_name = "Nora";
  last_name = "N";
  email = "n@b.fr";
  position = none;
  invited_at = some 1000;
  invite_token = some "#inv";
  user_id = none;
}

abbrev admin_row : CompanyEmployee
admin_row = record invited_row {
  id = 82;
  email = "a@b.fr";
  invited_at = none;
  invite_token = none;
  user_id = some 100;
}

abbrev office : Database
office = record town {
  users = buyer ∷ applicant ∷ stranger ∷ [];
  employees = invited_row ∷ admin_row ∷ [];
}

perform_team-SameRows_example :
    SameRows 51 office (perform_team (λ s. s) (λ s. "#" +++ s) 50 100 (delete_employee 81) office)
perform_team-SameRows_example =
    perform_team-SameRows (λ s. s) (λ s. "#" +++ s) 50 100 51 (delete_employee 81) office
      (omega arith)

row_is_deleted :
    (perform_team (λ s. s) (λ s. "#" +++ s) 50 100 (delete_employee 81) office).employees
    ≡ admin_row ∷ []
unfolding perform_team handler team_employee_delete get_company_employee find fetch raise_if modify
    delete_first ◌>>=◌ ◌>>◌
row_is_deleted = refl

own_row_stays :
    (perform_team (λ s. s) (λ s. "#" +++ s) 50 100 (delete_employee 82) office).employees
    ≡ office.employees
unfolding perform_team handler team_employee_delete get_company_employee find fetch raise_if modify
    delete_first ◌>>=◌ ◌>>◌
own_row_stays = refl

abbrev redeemed : Result InviteError User × Database
redeemed =
    signup_invite toy_characters toy_hashes "salt" "inv" "Secret-1234567" (some "on") 20 2000 office

invitation_is_redeemed : is_ok redeemed.0 ≡ true
unfolding signup_invite is_terms_accepted first_of select strip check_password resolve_invite
    validate_password classes any_char find fetch gets raise_if modify return exists update_first
    ◌>>=◌ ◌>>◌
invitation_is_redeemed = refl

signup_invite_once_example :
    Ensures
      (λ e s. s ≡ office)
      (λ user s.
        Joined toy_characters toy_hashes "salt" "inv" "Secret-1234567" 20 2000 office user s)
      redeemed
unfolding count
signup_invite_once_example =
    signup_invite_once toy_characters toy_hashes "salt" "inv" "Secret-1234567" (some "on") 20 2000
      office (omega arith)

abbrev busy_day : List StaffAction
busy_day =
    on_team 50 100 (approve_user 102)
    ∷ joins "salt" "inv" "Secret-1234567" (some "on") 20 2000
    ∷ on_team 50 100 (invite_employee 81 "more" 3000)
    ∷ []

perform_staff-AllSettled_example :
    AllSettled (perform_staff toy_characters toy_hashes busy_day office)
perform_staff-AllSettled_example =
    perform_staff-AllSettled toy_characters toy_hashes busy_day office
      (λ linked. cc linked, (λ linked. refl, tt))

applicant_is_approved : is_ok (team_approve 50 102 office).0 ≡ true
unfolding team_approve get_pending_user find fetch modify notify exists update_first ◌>>=◌ ◌>>◌
applicant_is_approved = refl
