-- ===== src/Editor/Posts.antt =====
-- blueprints/caterer/requests.py: sequences of the posts of the quote editor.
use les_traiteurs_engages_v.Base.{List, [], ℕ, ◌∷◌}
use les_traiteurs_engages_v.Editor.{
  EditorReply, QuoteForm, quote_create, quote_send, quote_update, request_reject,
}
use les_traiteurs_engages_v.Models.{Caterer, Database}

-- The posts of the editor, with the clock, the year and the caterer of the session.
pub data EditorAction : Type 0 where
  create : ℕ → ℕ → Caterer → ℕ → QuoteForm → EditorAction
  update : ℕ → ℕ → Caterer → ℕ → ℕ → QuoteForm → EditorAction
  send_draft : ℕ → ℕ → Caterer → ℕ → ℕ → EditorAction
  decline : ℕ → ℕ → Caterer → ℕ → EditorAction

module _ (one : ℕ) (round : ℕ → ℕ → ℕ) (year_of : ℕ → ℕ) where
  unfoldable pub edit : EditorAction → Database → EditorReply × Database
  edit (create now year caterer qr_id form) db =
      quote_create one round year_of now year caterer qr_id form db
  edit (update now year caterer qr_id quote_id form) db =
      quote_update one round year_of now year caterer qr_id quote_id form db
  edit (send_draft now year caterer qr_id quote_id) db =
      quote_send one round year_of now year caterer qr_id quote_id db
  edit (decline now year caterer qr_id) db =
      request_reject one round year_of now year caterer qr_id db

  unfoldable pub edits : List EditorAction → Database → Database
  edits [] db = db
  edits (a ∷ rest) db = edits rest (edit a db).1
