-- ===== src/Examples/Letters.antt =====
-- Messages, logins and the reset page on the town.
use les_traiteurs_engages_v.Accounts.{
  Cookie, LoginReply, ResetReply, any_char, classes, cleared, logged_in, login, password_updated,
  reset_password, validate_password,
}
use les_traiteurs_engages_v.Accounts.Login.{Opened, is_logged_in, login-Opened}
use les_traiteurs_engages_v.Accounts.Reset.{SignedOut, reset_password_signs_out}
use les_traiteurs_engages_v.Base.{
  Ensures, List, [], arith, exists, false, fetch, find, gets, modify, none, raise_if, refl, return,
  select, some, strip, true, update_first, ◌>>=◌, ◌>>◌, ◌∷◌, ◌≡◌, ◌⊎◌,
}
use les_traiteurs_engages_v.Examples.People.{mate, rival_cook, town}
use les_traiteurs_engages_v.Examples.Samples.{buyer, cook, order_at}
use les_traiteurs_engages_v.Examples.Toys.{keep_text, toy_characters, toy_checker, toy_hashes}
use les_traiteurs_engages_v.Messaging.{
  allowed_recipients_for, check_gate, gate_contexts, get_messages, has, parties_of, send_message,
}
use les_traiteurs_engages_v.Messaging.Rivals.{send_message_rival}
use les_traiteurs_engages_v.Messaging.Sending.{Sent, send_message-Sent}
use les_traiteurs_engages_v.Models.{Database, Message, OrderStatus, UserRole}
use les_traiteurs_engages_v.Notifications.{notify}
use les_traiteurs_engages_v.PasswordReset.{consume_token, issue_token}
use les_traiteurs_engages_v.Reviews.{is_ok}

mate_reaches_cook : has (allowed_recipients_for mate none (some 1) town) 200 ≡ true
unfolding allowed_recipients_for parties_of exists find select
mate_reaches_cook = refl

abbrev served_town : Database
served_town = record town { orders = order_at 41 21 OrderStatus.confirmed ∷ [] }

letter_is_sent :
    is_ok (send_message keep_text [] mate (some 200) (some " Bonjour ") none (some 1) town).0 ≡ true
unfolding send_message check_gate gate_contexts allowed_recipients_for parties_of exists find select
    fetch gets raise_if modify return notify strip ◌>>=◌ ◌>>◌
letter_is_sent = refl

send_message-Sent_example :
    Ensures
      (λ e s. s ≡ town)
      (λ message s. Sent keep_text [] mate (some 200) none (some 1) town message s)
      (send_message keep_text [] mate (some 200) (some " Bonjour ") none (some 1) town)
send_message-Sent_example =
    send_message-Sent keep_text [] mate (some 200) (some " Bonjour ") none (some 1) town

send_message_rival_example :
    Ensures
      (λ e s. s ≡ town)
      (λ message s. ⊥)
      (send_message keep_text [] cook (some 201) (some "Bonjour") none (some 1) town)
unfolding find
send_message_rival_example =
    send_message_rival keep_text [] cook rival_cook 60 61 (some "Bonjour") none (some 1) town
      (omega arith) refl refl refl refl refl refl refl (omega arith)

abbrev letter : Message
letter = record {
  id = 70;
  thread_id = 71;
  sender_id = 101;
  recipient_id = 200;
  order_id = none;
  quote_request_id = some 1;
  body = "Bonjour";
  is_read = false;
}

abbrev reading_town : Database
reading_town = record town { messages = letter ∷ [] }

abbrev cook_reads : List Message × Database
cook_reads = get_messages 71 cook reading_town

abbrev entered : LoginReply × Cookie
entered = login toy_characters toy_checker "a@b.fr" "x" cleared town

buyer_enters : entered.0 ≡ logged_in UserRole.client_admin
unfolding login find strip
buyer_enters = refl

login-Opened_example :
    ((is_logged_in entered.0 ≡ false) × (entered.1 ≡ cleared))
    ⊎ Opened toy_checker (strip "a@b.fr") "x" town entered.0 entered.1
login-Opened_example = login-Opened toy_characters toy_checker "a@b.fr" "x" cleared town

abbrev after_mail : Database
after_mail = issue_token toy_hashes "t1" 1000 buyer town

abbrev page : ResetReply × Database
page =
    reset_password toy_characters toy_hashes "salt" "t1" "Secret-1234567" "Secret-1234567" 1600 1601
      after_mail

page_resets : page.0 ≡ password_updated
unfolding reset_password validate_password classes any_char consume_token issue_token find fetch
    raise_if modify return update_first exists ◌>>=◌ ◌>>◌
page_resets = refl

reset_password_signs_out_example :
    (page.1 ≡ after_mail)
    ⊎ ((page.0 ≡ password_updated)
        × SignedOut toy_characters toy_hashes "salt" "t1" "Secret-1234567" 1600 1601 after_mail
            page.1)
reset_password_signs_out_example =
    reset_password_signs_out toy_characters toy_hashes "salt" "t1" "Secret-1234567" "Secret-1234567"
      1600 1601 after_mail
