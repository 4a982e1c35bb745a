-- ===== src/Admin/Content/Published.antt =====
-- The time of publication (`create_announcement`, `update_announcement`, `delete_announcement` of
-- app/services/admin.py; blog posts do the same).

use tools_backend.Base.{
  ℕ, ◌≡◌, refl, inl, inr, Bool, true, ◌&&◌, not, Option, none, some, List, [], ◌∷◌, ◌==◌,
  Bool-cases, Option-cases, All, All-append, Result, ok, err, Text, text_eq,
}
use tools_backend.Exceptions.{AppException}
use tools_backend.Admin.Rows.{User, Announcement, find_row, edit_row, delete_row}
use tools_backend.Admin.Content.{
  AnnouncementPayload, announcement_id_of, create_announcement, update_announcement,
  delete_announcement, changed_announcement, published, publication, republication,
}

-- What is published has a time of publication.
abbrev pub is_stamped : Text → Option ℕ → Bool
is_stamped status none = not (text_eq status published)
is_stamped status (some _) = true

abbrev pub AreStamped : List Announcement → Type 0
AreStamped rows = All (λ a. is_stamped a.status a.published_at ≡ true) rows

-- The changes that the panel makes to the announcements.
pub data ContentChange : Type 0 where
  creation : ℕ → AnnouncementPayload → Option User → ContentChange
  revision : ℕ → AnnouncementPayload → ContentChange
  deletion : ℕ → ContentChange

unfoldable pub change_announcements :
    ℕ → ContentChange → List Announcement → Result AppException (List Announcement)
unfolding create_announcement update_announcement delete_announcement
change_announcements now (creation id payload author) rows =
    ok (create_announcement now id payload author rows)
change_announcements now (revision id payload) rows = update_announcement now id payload rows
change_announcements now (deletion id) rows = delete_announcement id rows

abbrev pub kept_or_changed :
    Result AppException (List Announcement) → List Announcement → List Announcement
kept_or_changed (ok after) rows = after
kept_or_changed (err _) rows = rows

-- A sequence of changes with their times; one that fails changes nothing.
unfoldable pub change_all : List (ℕ × ContentChange) → List Announcement → List Announcement
unfolding change_announcements
change_all [] rows = rows
change_all ((now, change) ∷ changes) rows =
    change_all changes (kept_or_changed (change_announcements now change rows) rows)

is_stamped-publication :
    (status : Text) (now : ℕ) → is_stamped status (publication status now) ≡ true
is_stamped-publication status now = elim (Bool-cases (text_eq status published)) [
  | inl out ↦ rw out refl
  | inr draft ↦ rw (draft, draft) refl
]

is_stamped-republication :
    (old new : Text) (now : ℕ) (time : Option ℕ)
    → is_stamped old time ≡ true
    → is_stamped new (republication old new now time) ≡ true
is_stamped-republication old new now (some at) stamped =
    elim (Bool-cases (text_eq new published && not (text_eq old published))) [
      | inl turns ↦ rw turns refl
      | inr stays ↦ rw stays refl
    ]
is_stamped-republication old new now none stamped = elim (Bool-cases (text_eq new published)) [
  | inl out ↦ rw (out, stamped) refl
  | inr draft ↦ rw (draft, draft) refl
]

AreStamped-edit_row :
    (now id : ℕ) (payload : AnnouncementPayload) (rows : List Announcement)
    → AreStamped rows
    → AreStamped (edit_row announcement_id_of id (changed_announcement now payload) rows)
AreStamped-edit_row now id payload [] all = tt
AreStamped-edit_row now id payload (a ∷ rows) (here, all) = elim (Bool-cases (a.id == id)) [
  | inl same ↦ rw same (
    is_stamped-republication a.status payload.status now a.published_at here,
    AreStamped-edit_row now id payload rows all,
  )
  | inr differs ↦ rw differs (here, AreStamped-edit_row now id payload rows all)
]

AreStamped-delete_row :
    (id : ℕ) (rows : List Announcement)
    → AreStamped rows
    → AreStamped (delete_row announcement_id_of id rows)
AreStamped-delete_row id [] all = tt
AreStamped-delete_row id (a ∷ rows) (here, all) = elim (Bool-cases (a.id == id)) [
  | inl same ↦ rw same (AreStamped-delete_row id rows all)
  | inr differs ↦ rw differs (here, AreStamped-delete_row id rows all)
]

AreStamped-change :
    (now : ℕ) (change : ContentChange) (rows : List Announcement)
    → AreStamped rows
    → AreStamped (kept_or_changed (change_announcements now change rows) rows)
unfolding change_announcements create_announcement update_announcement delete_announcement
AreStamped-change now (creation id payload author) rows all =
    All-append _ rows _ all (is_stamped-publication payload.status now, tt)
AreStamped-change now (revision id payload) rows all =
    elim (Option-cases (find_row announcement_id_of id rows)) [
      | inl missing ↦ rw missing all
      | inr (a, found) ↦ rw found (AreStamped-edit_row now id payload rows all)
    ]
AreStamped-change now (deletion id) rows all =
    elim (Option-cases (find_row announcement_id_of id rows)) [
      | inl missing ↦ rw missing all
      | inr (a, found) ↦ rw found (AreStamped-delete_row id rows all)
    ]

-- Through any sequence of creations, revisions and deletions, failed ones included, every announcement
-- that is PUBLISHED has a time of publication, if this holds at the start.
pub change_all-AreStamped :
    (changes : List (ℕ × ContentChange)) (rows : List Announcement)
    → AreStamped rows
    → AreStamped (change_all changes rows)
unfolding change_all
change_all-AreStamped [] rows all = all
change_all-AreStamped ((now, change) ∷ changes) rows all =
    change_all-AreStamped changes _ (AreStamped-change now change rows all)
