-- ===== src/Models/Enums.antt =====
-- models.py: the enumerations that the columns store.
pub data UserRole : Type 0 where
  client_admin client_user caterer super_admin : UserRole

pub data MembershipStatus : Type 0 where
  pending active rejected : MembershipStatus

pub data QuoteRequestStatus : Type 0 where
  draft pending_review approved sent_to_caterers completed cancelled quotes_refused :
      QuoteRequestStatus

pub data QrcStatus : Type 0 where
  selected responded transmitted_to_client rejected closed : QrcStatus

pub data QuoteStatus : Type 0 where
  draft sent accepted refused expired : QuoteStatus

pub data OrderStatus : Type 0 where
  confirmed delivered invoicing invoiced paid disputed : OrderStatus

pub data PaymentStatus : Type 0 where
  pending processing succeeded failed refunded canceled : PaymentStatus
