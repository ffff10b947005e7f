-- ===== src/Models/Tests.antt =====
-- The comparisons of a status or a role with one member of its enumeration, as the queries make them.
use mathlib.Core.Bool.{Bool, true, false}
use mathlib.Core.Option.{Option, some}
use les_traiteurs_engages_v.Models.Enums.{
  UserRole, MembershipStatus, QuoteRequestStatus, QrcStatus, QuoteStatus, OrderStatus,
}

abbrev pub is_client_admin : UserRole → Bool
is_client_admin UserRole.client_admin = true
is_client_admin _ = false

abbrev pub is_client_user : UserRole → Bool
is_client_user UserRole.client_user = true
is_client_user _ = false

abbrev pub is_caterer : UserRole → Bool
is_caterer UserRole.caterer = true
is_caterer _ = false

abbrev pub is_super_admin : UserRole → Bool
is_super_admin UserRole.super_admin = true
is_super_admin _ = false

abbrev pub is_sent_to_caterers : QuoteRequestStatus → Bool
is_sent_to_caterers QuoteRequestStatus.sent_to_caterers = true
is_sent_to_caterers _ = false

abbrev pub is_selected : QrcStatus → Bool
is_selected QrcStatus.selected = true
is_selected _ = false

abbrev pub is_transmitted : QrcStatus → Bool
is_transmitted QrcStatus.transmitted_to_client = true
is_transmitted _ = false

abbrev pub is_rejected : QrcStatus → Bool
is_rejected QrcStatus.rejected = true
is_rejected _ = false

abbrev pub is_closed : QrcStatus → Bool
is_closed QrcStatus.closed = true
is_closed _ = false

abbrev pub is_draft : QuoteStatus → Bool
is_draft QuoteStatus.draft = true
is_draft _ = false

abbrev pub is_sent : QuoteStatus → Bool
is_sent QuoteStatus.sent = true
is_sent _ = false

abbrev is_accepted : QuoteStatus → Bool
is_accepted QuoteStatus.accepted = true
is_accepted _ = false

abbrev pub is_confirmed : OrderStatus → Bool
is_confirmed OrderStatus.confirmed = true
is_confirmed _ = false

abbrev pub is_paid : OrderStatus → Bool
is_paid OrderStatus.paid = true
is_paid _ = false

-- On the nullable column `membership_status`.
abbrev pub is_pending_member : Option MembershipStatus → Bool
is_pending_member (some MembershipStatus.pending) = true
is_pending_member _ = false

abbrev pub is_active_member : Option MembershipStatus → Bool
is_active_member (some MembershipStatus.active) = true
is_active_member _ = false
