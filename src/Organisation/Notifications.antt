-- ===== src/Organisation/Notifications.antt =====
-- Reading all notifications of a user.
use tms_api.Prelude.{
  ℕ, ◌≡◌, ◌≢◌, refl, true, not, ◌&&◌, List, [], ◌∷◌, map, keep, change, arith, ◌==◌,
}
use tms_api.Prisma.{Client, IsLawful, in_memory-eq}
use tms_api.Database.{Database, Notification, notification}
use tms_api.Database.Triple.{After-always, After-update_many}
use tms_api.Organisation.{mark_all_as_read}

abbrev pub notifications_of : ℕ → List Notification → List Notification
notifications_of user_id rows = keep (λ n. n.user_id == user_id) rows

abbrev pub unread_of : ℕ → List Notification → List Notification
unread_of user_id rows = keep (λ n. n.user_id == user_id && not n.read) rows

abbrev read_row : Notification → Notification
read_row n = record n { read = true }

abbrev all_read : ℕ → List Notification → List Notification
all_read user_id rows = change (λ n. n.user_id == user_id && not n.read) read_row rows

unread_of-all_read : (u : ℕ) (rows : List Notification) → unread_of u (all_read u rows) ≡ []
unread_of-all_read u [] = refl
unread_of-all_read u (n ∷ rows) = ground (arith, unread_of-all_read u rows)

map-notifications_of :
    (u : ℕ) (rows : List Notification)
    → map (λ n. n.message) (notifications_of u (all_read u rows))
      ≡ map (λ n. n.message) (notifications_of u rows)
map-notifications_of u [] = refl
map-notifications_of u (n ∷ rows) = ground (arith, map-notifications_of u rows)

notifications_of-all_read :
    (u k : ℕ) (rows : List Notification)
    → k ≢ u
    → notifications_of k (all_read u rows) ≡ notifications_of k rows
notifications_of-all_read u k [] ne = refl
notifications_of-all_read u k (n ∷ rows) ne =
    ground (arith, ne, notifications_of-all_read u k rows ne)

-- What marking all notifications of `user_id` as read leaves.
abbrev pub IsRead : ℕ → Database → Database → Type 0
IsRead user_id old new =
    (unread_of user_id new.notifications.rows ≡ [])
    × (map (λ n. n.message) (notifications_of user_id new.notifications.rows)
        ≡ map (λ n. n.message) (notifications_of user_id old.notifications.rows))
    × ((k : ℕ)
        → k ≢ user_id
        → notifications_of k new.notifications.rows ≡ notifications_of k old.notifications.rows)

-- After `markAllAsRead`, the user has no unread notification and the same messages as before, and
-- the notifications of every other user are what they were.
pub mark_all_as_read-IsRead :
    (c : Client)
    → IsLawful c
    → (user_id : ℕ) (db : Database) → IsRead user_id db (mark_all_as_read c user_id db).1
unfolding mark_all_as_read
mark_all_as_read-IsRead c lawful u db = rw (in_memory-eq lawful) (
    After-always {I = IsRead u db} (
      After-update_many notification _ _ (
        unread_of-all_read u db.notifications.rows,
        map-notifications_of u db.notifications.rows,
        λ k ne. notifications_of-all_read u k db.notifications.rows ne,
      )))
