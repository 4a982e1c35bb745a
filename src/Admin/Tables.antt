-- ===== src/Admin/Tables.antt =====
-- The database behind the accounts and the admin panel, and what the deletion of an account does
-- to the rows that refer to it (the foreign keys of app/models: `ondelete="CASCADE"` for
-- subscriptions, `ondelete="SET NULL"` for the rest).
use tools_backend.Base.{
  ℕ, suc, Bool, not, Option, none, some, List, [], ◌∷◌, ◌++◌, map, ◌==◌, if◌then◌else◌, keep_if,
  any, Result, ok, ◌>>◌, raise_if, text_eq,
}
use tools_backend.Exceptions.{AppException}
use tools_backend.Jobs.Rows.{StoredFile, ProcessingJob}
use tools_backend.Admin.Rows.{
  User, Subscription, AdminAuditLog, ContactMessage, Feedback, Announcement, BlogPost,
}

-- `next_id` stands for the generator of fresh identifiers, `now` for the clock.
pub record Tables : Type 0 where
  pub users : List User
  pub subscriptions : List Subscription
  pub audit_logs : List AdminAuditLog
  pub messages : List ContactMessage
  pub feedback : List Feedback
  pub announcements : List Announcement
  pub posts : List BlogPost
  pub jobs : List ProcessingJob
  pub files : List StoredFile
  pub next_id : ℕ
  pub now : ℕ

abbrev pub user_id_of : User → ℕ
user_id_of u = u.id

-- `column IN (keys)`
abbrev pub is_one_of : List ℕ → ℕ → Bool
is_one_of keys key = any (λ k. k == key) keys

-- `ondelete="SET NULL"`
abbrev pub released : List ℕ → Option ℕ → Option ℕ
released keys none = none
released keys (some key) = if is_one_of keys key then none else some key

-- `DELETE FROM users WHERE id IN (keys)`
unfoldable pub erase_users : List ℕ → Tables → Tables
erase_users keys t = record t {
  users = keep_if (λ u. not (is_one_of keys u.id)) t.users;
  subscriptions = keep_if (λ s. not (is_one_of keys s.user_id)) t.subscriptions;
  audit_logs =
      map {A = AdminAuditLog} (λ l. record l { actor_id = released keys l.actor_id }) t.audit_logs;
  messages =
      map {A = ContactMessage} (λ m. record m { user_id = released keys m.user_id }) t.messages;
  feedback = map {A = Feedback} (λ f. record f { user_id = released keys f.user_id }) t.feedback;
  announcements =
      map {A = Announcement} (λ a. record a { author_id = released keys a.author_id })
        t.announcements;
  posts = map {A = BlogPost} (λ p. record p { author_id = released keys p.author_id }) t.posts;
  jobs = map {A = ProcessingJob} (λ j. record j { user_id = released keys j.user_id }) t.jobs;
  files = map {A = StoredFile} (λ f. record f { user_id = released keys f.user_id }) t.files;
}

-- A new row of `users`; the column `email` is unique.
unfoldable pub insert_user : User → Tables → Result AppException Tables
insert_user u t =
    raise_if (any (λ v. text_eq v.email u.email) t.users) AppException.database_error
    >> ok (record t { users = t.users ++ u ∷ []; next_id = suc t.next_id })
