-- ===== src/Admin/Lists.antt =====
-- The list queries of the admin panel (`list_users`, `list_subscriptions`, `list_files`,
-- `list_jobs`, `list_feedback`, `list_messages`, `list_announcements`, `list_faqs`, `list_blog`,
-- `list_pages`, `list_audit` and `list_errors` of app/services/admin.py). An order of the database
-- is a parameter for each sort key.
use tools_backend.Base.{
  ℕ, Bool, false, ◌&&◌, ◌||◌, not, Option, none, some, List, [], ◌∷◌, ◌++◌, map, ◌==◌,
  if◌then◌else◌, Text, codes, text_eq,
}
use tools_backend.Constants.{FileCategory, JobStatus}
use tools_backend.Jobs.Rows.{StoredFile, ProcessingJob}
use tools_backend.Admin.Rows.{
  User, Subscription, AdminAuditLog, ContactMessage, Feedback, Announcement, Faq, BlogPost,
  ContentPage, ErrorLog, find_row,
}
use tools_backend.Admin.Tables.{Tables, user_id_of}
use tools_backend.Admin.Users.{count_if}
use tools_backend.Admin.Listing.{PaginationParams, column_like, when_given, list_rows}

pub data UserOrder : Type 0 where
  by_name by_name_desc by_conversions by_conversions_desc by_created_at by_created_at_desc :
      UserOrder

-- `sort_map.get(sort or "-created_at", ...)`
abbrev pub user_order_of : Option Text → UserOrder
user_order_of none = by_created_at_desc
user_order_of (some sort) =
    if text_eq sort (codes "name")
    then by_name
    else if text_eq sort (codes "-name")
    then by_name_desc
    else if text_eq sort (codes "conversions")
    then by_conversions
    else if text_eq sort (codes "-conversions")
    then by_conversions_desc
    else if text_eq sort (codes "created_at")
    then by_created_at
    else by_created_at_desc

-- The name or the e-mail address has the search text.
abbrev pub user_has : Text → User → Bool
user_has q u = column_like q u.name || column_like q u.email

abbrev pub user_matches : Option Text → Option Text → Option Text → User → Bool
user_matches q plan status u =
    when_given q (λ text. user_has text u)
    && when_given plan (λ p. text_eq u.plan p)
    && when_given status (λ s. text_eq u.status s)

abbrev pub owned_by : ℕ → Option ℕ → Bool
owned_by key none = false
owned_by key (some owner) = owner == key

-- The subquery `_conversions_subq`
abbrev pub conversions : List ProcessingJob → User → ℕ
conversions jobs u = count_if (λ j. owned_by u.id j.user_id) jobs

-- A row and its column `conversions`
abbrev pub with_conversions : List ProcessingJob → User → User × ℕ
with_conversions jobs u = (u, conversions jobs u)

unfoldable pub list_users :
    (UserOrder → List User → List User)
    → Tables
    → PaginationParams
    → Option Text
    → Option Text
    → Option Text
    → Option Text
    → List (User × ℕ) × ℕ
unfolding list_rows
list_users order t page q plan status sort =
    let (rows, total) =
      list_rows (order (user_order_of sort)) page (user_matches q plan status) t.users in
    (map (with_conversions t.jobs) rows, total)

-- A row of the join of the subscriptions with their accounts.
abbrev pub joined : List User → Subscription → List (Subscription × User)
joined users s = elim (find_row user_id_of s.user_id users) [ none ↦ [] | some u ↦ (s, u) ∷ [] ]

abbrev pub join : List User → List Subscription → List (Subscription × User)
join users [] = []
join users (s ∷ subs) = joined users s ++ join users subs

abbrev pub subscription_matches : Option Text → Option Text → Subscription × User → Bool
subscription_matches q status (s, u) =
    when_given q (λ text. user_has text u) && when_given status (λ value. text_eq s.status value)

unfoldable pub list_subscriptions :
    (List (Subscription × User) → List (Subscription × User))
    → Tables
    → PaginationParams
    → Option Text
    → Option Text
    → List (Subscription × User) × ℕ
unfolding list_rows
list_subscriptions order t page q status =
    list_rows order page (subscription_matches q status) (join t.users t.subscriptions)

abbrev pub category_text : FileCategory → Text
category_text FileCategory.upload = codes "upload"
category_text FileCategory.processed = codes "processed"
category_text FileCategory.thumbnail = codes "thumbnail"

abbrev pub file_matches : Option Text → Option Text → StoredFile → Bool
file_matches q category f =
    when_given q (λ text. column_like text f.original_name)
    && when_given category (λ value. text_eq (category_text f.category) value)

unfoldable pub list_files :
    (List StoredFile → List StoredFile)
    → Tables
    → PaginationParams
    → Option Text
    → Option Text
    → List StoredFile × ℕ
unfolding list_rows
list_files order t page q category = list_rows order page (file_matches q category) t.files

abbrev pub job_status_text : JobStatus → Text
job_status_text JobStatus.pending = codes "pending"
job_status_text JobStatus.queued = codes "queued"
job_status_text JobStatus.processing = codes "processing"
job_status_text JobStatus.completed = codes "completed"
job_status_text JobStatus.failed = codes "failed"
job_status_text JobStatus.cancelled = codes "cancelled"
job_status_text JobStatus.expired = codes "expired"

abbrev pub job_matches : Option Text → Option Text → ProcessingJob → Bool
job_matches q status j =
    when_given q (λ text. column_like text j.tool)
    && when_given status (λ value. text_eq (job_status_text j.status) value)

unfoldable pub list_jobs :
    (List ProcessingJob → List ProcessingJob)
    → Tables
    → PaginationParams
    → Option Text
    → Option Text
    → List ProcessingJob × ℕ
unfolding list_rows
list_jobs order t page q status = list_rows order page (job_matches q status) t.jobs

-- A search in a column that may be NULL.
abbrev pub nullable_like : Text → Option Text → Bool
nullable_like q none = false
nullable_like q (some column) = column_like q column

abbrev pub feedback_matches : Option Text → Option Text → Feedback → Bool
feedback_matches category q f =
    when_given category (λ value. text_eq f.category value)
    && when_given q
        (λ text. column_like text f.name || column_like text f.email || column_like text f.message)

abbrev pub is_unread_asked : Option Bool → Bool
is_unread_asked none = false
is_unread_asked (some unread) = unread

abbrev pub message_matches : Option Text → Option Bool → ContactMessage → Bool
message_matches q unread m =
    when_given q
      (λ text. column_like text m.name || column_like text m.email || nullable_like text m.subject)
    && (not (is_unread_asked unread) || not m.is_read)

abbrev pub announcement_matches : Option Text → Announcement → Bool
announcement_matches q a =
    when_given q (λ text. column_like text a.title || column_like text a.body)

abbrev pub faq_matches : Option Text → Faq → Bool
faq_matches q f = when_given q (λ text. column_like text f.question || column_like text f.answer)

abbrev pub post_matches : Option Text → BlogPost → Bool
post_matches q p = when_given q (λ text. column_like text p.title || nullable_like text p.excerpt)

abbrev pub page_matches : Option Text → ContentPage → Bool
page_matches q p = when_given q (λ text. column_like text p.title || column_like text p.page_path)

abbrev pub audit_matches : Option Text → Option Text → AdminAuditLog → Bool
audit_matches category q l =
    when_given category (λ value. text_eq l.category value)
    && when_given q (λ text. column_like text l.summary || column_like text l.action)

abbrev pub error_matches : Option Text → Option Text → ErrorLog → Bool
error_matches level q e =
    when_given level (λ value. text_eq e.level value)
    && when_given q (λ text. column_like text e.message)

unfoldable pub list_feedback :
    (List Feedback → List Feedback)
    → Tables
    → PaginationParams
    → Option Text
    → Option Text
    → List Feedback × ℕ
unfolding list_rows
list_feedback order t page category q =
    list_rows order page (feedback_matches category q) t.feedback

unfoldable pub list_messages :
    (List ContactMessage → List ContactMessage)
    → Tables
    → PaginationParams
    → Option Text
    → Option Bool
    → List ContactMessage × ℕ
unfolding list_rows
list_messages order t page q unread = list_rows order page (message_matches q unread) t.messages

unfoldable pub list_announcements :
    (List Announcement → List Announcement)
    → Tables
    → PaginationParams
    → Option Text
    → List Announcement × ℕ
unfolding list_rows
list_announcements order t page q = list_rows order page (announcement_matches q) t.announcements

unfoldable pub list_faqs :
    (List Faq → List Faq) → List Faq → PaginationParams → Option Text → List Faq × ℕ
unfolding list_rows
list_faqs order rows page q = list_rows order page (faq_matches q) rows

unfoldable pub list_blog :
    (List BlogPost → List BlogPost) → Tables → PaginationParams → Option Text → List BlogPost × ℕ
unfolding list_rows
list_blog order t page q = list_rows order page (post_matches q) t.posts

unfoldable pub list_pages :
    (List ContentPage → List ContentPage)
    → List ContentPage
    → PaginationParams
    → Option Text
    → List ContentPage × ℕ
unfolding list_rows
list_pages order rows page q = list_rows order page (page_matches q) rows

unfoldable pub list_audit :
    (List AdminAuditLog → List AdminAuditLog)
    → Tables
    → PaginationParams
    → Option Text
    → Option Text
    → List AdminAuditLog × ℕ
unfolding list_rows
list_audit order t page category q = list_rows order page (audit_matches category q) t.audit_logs

unfoldable pub list_errors :
    (List ErrorLog → List ErrorLog)
    → List ErrorLog
    → PaginationParams
    → Option Text
    → Option Text
    → List ErrorLog × ℕ
unfolding list_rows
list_errors order rows page level q = list_rows order page (error_matches level q) rows
