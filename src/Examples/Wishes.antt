-- ===== src/Examples/Wishes.antt =====
-- The wizard's posts and the quote editor on the shop.
use les_traiteurs_engages_v.Base.{
  Ensures, List, Option, Result, String, [], arith, count, exists, fetch, find, gets, modify, none,
  ok, raise, raise_if, refl, return, some, strip, true, ℕ, ◌==◌, ◌>>=◌, ◌>>◌, ◌∷◌, ◌≡◌, ◌≤◌,
}
use les_traiteurs_engages_v.Demands.{
  DemandError, RequestForm, already_sent, apply_form, insert_demand, new_request, requests_new_post,
  resolve_target_caterer,
}
use les_traiteurs_engages_v.Demands.Edited.{Edited, request_edit_post-Edited}
use les_traiteurs_engages_v.Demands.Editing.{request_edit_post}
use les_traiteurs_engages_v.Demands.Once.{requests_new_post_once}
use les_traiteurs_engages_v.Demands.Routed.{Routed, requests_new_post-Routed}
use les_traiteurs_engages_v.Editor.{EditorButton, QuoteForm, is_draft_of}
use les_traiteurs_engages_v.Editor.Details.{flat, list}
use les_traiteurs_engages_v.Editor.Drafts.{edits_freeze, edits_one_draft}
use les_traiteurs_engages_v.Editor.Posts.{EditorAction, decline, edits, update}
use les_traiteurs_engages_v.Examples.Samples.{buyer, kitchen, rival, sent_quote, shop}
use les_traiteurs_engages_v.Examples.Toys.{keep_text}
use les_traiteurs_engages_v.Models.{Database}
use les_traiteurs_engages_v.Pricing.Lines.{LineDict, finite, plus}
use les_traiteurs_engages_v.Reviews.{is_ok}
use les_traiteurs_engages_v.Scoping.{get_company_request}

-- Every text is a UUID, that of the kitchen.
abbrev toy_uuid : String → Option ℕ
toy_uuid s = some 60

abbrev wish : RequestForm
wish = record {
  fields_valid = true;
  form_token = some " k1 ";
  target_caterer_id = none;
  company_service_id = none;
  meal_type = some "aperitif";
  event_date = some 30;
  guest_count = some 12;
  event_address = some "1 rue A";
  event_city = some "Lyon";
  event_zip_code = some "";
  is_compare_mode = true;
  message_to_caterer = none;
  ticked = λ s. some "1";
}

abbrev aimed_wish : RequestForm
aimed_wish = record wish { target_caterer_id = some "60" }

abbrev wished : Result DemandError ℕ × Database
wished = requests_new_post keep_text toy_uuid buyer wish shop

wish_is_posted : wished ≡ (ok 1000, wished.1)
unfolding requests_new_post insert_demand resolve_target_caterer strip find exists gets raise_if
    fetch modify return new_request apply_form ◌>>=◌ ◌>>◌
wish_is_posted = refl

requests_new_post-Routed_example :
    Ensures
      (λ e d. d ≡ shop)
      (Routed keep_text toy_uuid buyer aimed_wish shop)
      (requests_new_post keep_text toy_uuid buyer aimed_wish shop)
requests_new_post-Routed_example = requests_new_post-Routed keep_text toy_uuid buyer aimed_wish shop

requests_new_post_once_example :
    requests_new_post keep_text toy_uuid buyer aimed_wish wished.1
    ≡ (raise (already_sent 1000), wished.1)
unfolding strip
requests_new_post_once_example =
    requests_new_post_once keep_text toy_uuid buyer buyer wish aimed_wish shop wished.1 1000 "k1"
      wish_is_posted refl refl refl

request_edit_post-Edited_example :
    Ensures
      (λ e d. d ≡ shop)
      (λ u. Edited keep_text toy_uuid buyer 2 wish shop)
      (request_edit_post keep_text toy_uuid buyer 2 wish shop)
request_edit_post-Edited_example = request_edit_post-Edited keep_text toy_uuid buyer 2 wish shop

pending_is_edited : is_ok (request_edit_post keep_text toy_uuid buyer 2 wish shop).0 ≡ true
unfolding request_edit_post get_company_request find fetch raise_if gets modify return ◌>>=◌ ◌>>◌
pending_is_edited = refl

-- Numbers that are whole cents already.
abbrev to_scale : ℕ → ℕ → ℕ
to_scale scale n = n

abbrev menu : LineDict
menu = record {
  section = none;
  description = some "Menu";
  quantity = some (finite (plus 2000));
  unit_price_ht = some (finite (plus 12500));
  tva_rate = none;
}

abbrev offer : QuoteForm
offer = record {
  fields_valid = true;
  details = some (list (flat menu ∷ []));
  notes = none;
  valid_until = some 40;
  action = EditorButton.send;
}

-- The rival revises and sends its draft, and the kitchen tries to change what it has sent.
abbrev posts : List EditorAction
posts =
    update 6 2026 rival 1 22 offer
    ∷ update 7 2026 kitchen 1 21 offer
    ∷ decline 8 2026 kitchen 1
    ∷ []

edits_freeze_example :
    find (λ q. q.id == 21) (edits 1000 to_scale (λ t. 2026) posts shop).quotes ≡ some sent_quote
unfolding find
edits_freeze_example = edits_freeze 1000 to_scale (λ t. 2026) posts shop 21 sent_quote refl refl

edits_one_draft_example :
    count (is_draft_of 1 61) (edits 1000 to_scale (λ t. 2026) posts shop).quotes ≤ 1
unfolding count
edits_one_draft_example = edits_one_draft 1000 to_scale (λ t. 2026) posts shop 1 61 (omega arith)
