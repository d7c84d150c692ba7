-- ===== src/Witnesses/Listing.antt =====
-- A user lists the refunds of a payment.
use ptrans.Prelude.{◌≡◌, refl, false, some, List, [], ◌∷◌}
use ptrans.Prelude.Int.{pos}
use ptrans.Domain.Errors.{ok}
use ptrans.Domain.Refund.{Refund, RefundStatus, is_refund_status}
use ptrans.Storage.Schema.{Store, no_faults, ◌>>=◌}
use ptrans.Storage.Refunds.Queries.{list_refunds, selects, page_of}
use ptrans.Refunds.Service.{ListFilter, filter_error, page_error, status_error}
use ptrans.Refunds.Reading.{list, IsPage, list-IsPage}
use ptrans.Witnesses.Deciding.{refund}
use ptrans.Witnesses.Refunding.{database}

abbrev filter : ListFilter
filter = record {
  payment_id = "pay_1";
  status = some RefundStatus.pending;
  manual_review = false;
  limit = pos 10;
  offset = pos 0;
}

abbrev list_store : Store
list_store = record {
  db = record database { refunds = refund ∷ record refund { id = "re_2"; user_id = "bob" } ∷ [] };
  ensured_users = [];
}

same_order : List Refund → List Refund
same_order rows = rows

own_list : list same_order no_faults "ann" filter list_store ≡ (ok (refund ∷ []), list_store)
unfolding list filter_error page_error status_error list_refunds selects page_of same_order
    is_refund_status ◌>>=◌
own_list = refl

list-IsPage_example : IsPage "ann" filter (refund ∷ []) × (list_store ≡ list_store)
unfolding same_order
list-IsPage_example =
    list-IsPage same_order no_faults "ann" filter list_store list_store (refund ∷ [])
      (λ P rows h. h) own_list
