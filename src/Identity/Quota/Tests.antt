-- ===== src/Identity/Quota/Tests.antt =====
-- The theorems on quotas at concrete inputs, and runs of the service.
use reading_wiki.Prelude.{
  ◌+◌, ◌≤◌, ◌≡◌, refl, true, false, ◌&&◌, ◌||◌, some, List, [], ◌∷◌, arith, leb, first_match,
  put_first, min, if◌then◌else◌,
}
use reading_wiki.Errors.{ok, err, quota_exceeded, value_error}
use reading_wiki.Identity.Principal.{Principal, Role, AccountStatus, spend_allowed}
use reading_wiki.Identity.Quota.Kinds.{translated_chapters, ocr_pages, tts_chapters, parse_kind}
use reading_wiki.Identity.Quota.Table.{
  Usage, used, set_used, get_usage, fresh_row, ensure_row, set_row, try_reserve,
}
use reading_wiki.Identity.Quota.Service.{
  check_available, reserve, check_and_reserve, refund, by_kind,
}
use reading_wiki.Identity.Quota.Limits.{
  is_granted, get_usage-reserve, check_and_reserve-check_available, reserve_exact, refund-gives,
}
use reading_wiki.Identity.Quota.Requests.{
  Request, reserving, refunding, serve_all, serve_all-within_limit, refund-reserve,
}

abbrev reader : Principal
reader = record {
  user_id = 4;
  role = Role.user;
  status = AccountStatus.active;
  email_verified = true;
  quota_limits = λ k. some (by_kind 10 20 1 5 k);
}

-- The reader has 8 of the 10 translations used.
abbrev table : List Usage
table = (record (fresh_row 4 7) { translated_chapters = 8 }) ∷ []

reserve_two : (reserve 7 reader "translated_chapters" 2 table).0 ≡ ok true
unfolding reserve parse_kind try_reserve ensure_row get_usage used set_row set_used first_match
    put_first
reserve_two = refl

over_the_limit :
    ((reserve 7 reader "translated_chapters" 3 table).0 ≡ ok false)
    × ((check_and_reserve 7 reader "translated_chapters" 3 table).0 ≡ err quota_exceeded)
    × ((reserve 7 reader "pages" 3 table).0 ≡ err value_error)
unfolding check_and_reserve parse_kind try_reserve ensure_row get_usage used set_row set_used
    first_match put_first
over_the_limit = (refl, refl, refl)

get_usage-reserve_example :
    get_usage 4 7 (reserve 7 reader "translated_chapters" 2 table).1 translated_chapters ≡ (
      if is_granted (reserve 7 reader "translated_chapters" 2 table).0 && true
      then get_usage 4 7 table translated_chapters + 2
      else get_usage 4 7 table translated_chapters)
unfolding parse_kind
get_usage-reserve_example =
    get_usage-reserve 7 reader "translated_chapters" 2 table translated_chapters translated_chapters
      4 7 refl

check_and_reserve-check_available_example :
    (check_and_reserve 7 reader "translated_chapters" 3 table).0
    ≡ (check_available 7 reader "translated_chapters" 3 table).0
check_and_reserve-check_available_example =
    check_and_reserve-check_available 7 reader "translated_chapters" 3 table

reserve_exact_example :
    (reserve 7 reader "translated_chapters" 2 table).0
    ≡ ok (false || (spend_allowed reader && leb (get_usage 4 7 table translated_chapters + 2) 10))
unfolding parse_kind
reserve_exact_example =
    reserve_exact 7 reader "translated_chapters" 2 table translated_chapters 10 refl refl refl

refund-gives_example :
    let (r, t') = refund 7 (some 4) "translated_chapters" 20 table in
    (r ≡ ok (min 20 (get_usage 4 7 table translated_chapters)))
    × (get_usage 4 7 t' ocr_pages ≡ get_usage 4 7 table ocr_pages)
unfolding parse_kind
refund-gives_example =
    refund-gives 7 "translated_chapters" 20 table 4 translated_chapters ocr_pages 4 7 refl

abbrev requests : List Request
requests =
    reserving reader "translated_chapters" 2
    ∷ reserving reader "translated_chapters" 2
    ∷ refunding (some 4) "translated_chapters" 1
    ∷ reserving reader "tts_chapters" 9
    ∷ []

table_within : get_usage 4 7 table translated_chapters ≤ 10
unfolding get_usage used first_match
table_within = omega arith

serve_all-within_limit_example : get_usage 4 7 (serve_all 7 requests table) translated_chapters ≤ 10
serve_all-within_limit_example =
    serve_all-within_limit 7 4 translated_chapters 10 requests table
      ((λ e. (refl, refl)), ((λ e. (refl, refl)), (tt, ((λ e. (refl, refl)), tt)))) table_within

refund-reserve_example :
    get_usage 4 7
      (refund 7
        (some 4)
        "translated_chapters"
        2
        (reserve 7 reader "translated_chapters" 2 table).1).1
      tts_chapters
    ≡ get_usage 4 7 table tts_chapters
refund-reserve_example =
    refund-reserve 7 reader "translated_chapters" 2 table reserve_two 4 7 tts_chapters
