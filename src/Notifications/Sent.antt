-- ===== src/Notifications/Sent.antt =====
-- What one reminder adds to the notifications.
use library_api.Prelude.{
  sym, ◌∙◌, ◌≡◌, ◌≢◌, ◌≤◌, ◌+◌, ◌<◌, ◌⊎◌, inl, inr, count, select, eq_iff, refl, ◌==◌, Bool-cases,
  List-cases, true, String, Option, some, List, ◌∷◌, arith,
}
use library_api.Datetime.{Date, date_of}
use library_api.Table.{count-insert, insert}
use library_api.Models.Notification.{NotificationType, Notification, type_eq, notification_row}
use library_api.Exec.{err}
use library_api.Errors.{multiple_results_found}
use library_api.External.{External}
use library_api.World.{State, today}
use library_api.Notifications.{
  sent_for_loan_on, send_once_per_day, exists_for_loan_today, send_unless, send_notification,
}
use library_api.Notifications.Once.{count-select, nothing_sent, one_sent}

type_eq-true : (s t : NotificationType) → type_eq s t ≡ true → s ≡ t
type_eq-true s t h = ground arith

module _ ⦃ext : External⦄ where
  many_sent :
      (loan_id : String) (type : NotificationType) (w : State) {m n : Notification}
      {l : List Notification}
      → select (sent_for_loan_on loan_id type (ext.local_date w.readings)) w.notifications
        ≡ m ∷ n ∷ l
      → exists_for_loan_today loan_id type w ≡ (err (multiple_results_found), (today w).1)
  unfolding exists_for_loan_today
  many_sent loan_id type w h = rw (h, h) refl

  -- One more notification, of this loan and type, and the first of the day unless the loan has no
  -- identifier.
  pub record Sent (loan_id : String) (type : NotificationType) (date : Date)
      (l l' : List Notification) : Type 0 where
    pub notification : Notification
    pub of_loan : notification.loan_id ≡ some loan_id
    pub of_type : notification.type ≡ type
    pub first :
        (loan_id ≡ "")
        ⊎ ((date_of notification.created_at ≡ date)
            × (count (sent_for_loan_on loan_id type date) l ≡ 0))
    pub added : l' ≡ insert notification l

  pub send_once_per_day-cases :
      (user_id : String) (type : NotificationType) (message loan_id : String)
      (other : Option String) (w : State)
      → let w' = (send_once_per_day user_id type message (some loan_id) other w).1 in
        (w.readings + 2 < w'.readings
          → date_of (ext.clock (w.readings + 2)) ≡ ext.local_date w.readings)
        → (w'.notifications ≡ w.notifications)
          ⊎ Sent loan_id type (ext.local_date w.readings) w.notifications w'.notifications
  unfolding send_once_per_day send_unless send_notification
  send_once_per_day-cases user_id type message loan_id other w same_day =
      let sent = sent_for_loan_on loan_id type (ext.local_date w.readings) in
      let counted = count-select sent w.notifications in
      elim (Bool-cases (loan_id == "")) [
        | inl unnamed ↦ inr (
            rw unnamed (record {
              notification = _;
              of_loan = refl;
              of_type = refl;
              first = inl ((eq_iff loan_id "").0 unnamed);
              added = refl;
            }))
        | inr named ↦ elim (List-cases (select sent w.notifications)) [
          | inl nothing ↦
              let unsent = nothing_sent loan_id type w nothing in
              let w' = (send_once_per_day user_id type message (some loan_id) other w).1 in
              let read : w.readings + 2 < w'.readings = rw (named, unsent, unsent) (omega arith) in
              let day = same_day read in
              inr (
                rw (named, unsent, unsent)
                  (record {
                    notification = _;
                    of_loan = refl;
                    of_type = refl;
                    first = inr (ground (arith, day), ground (arith, counted, nothing));
                    added = refl;
                  }))
          | inr (first, rest, had) ↦ elim (List-cases rest) [
            | inl alone ↦ inl (
                rw
                  (
                    named,
                    one_sent loan_id type w (rw alone at had),
                    one_sent loan_id type w (rw alone at had),
                  )
                  refl)
            | inr (second, others, more) ↦ inl (
                rw
                  (
                    named,
                    many_sent loan_id type w (rw more at had),
                    many_sent loan_id type w (rw more at had),
                  )
                  refl)
          ]
        ]
      ]

  pub Sent-few :
      (loan_id : String) (type : NotificationType) (date : Date) (l l' : List Notification)
      (k : String) (t : NotificationType) (d : Date)
      → k ≢ ""
      → Sent loan_id type date l l'
      → count (sent_for_loan_on k t d) l ≤ 1
      → count (sent_for_loan_on k t d) l' ≤ 1
  Sent-few loan_id type date l l' k t d named s few =
      rw (s.added, count-insert (sent_for_loan_on k t d))
        (elim (Bool-cases (sent_for_loan_on k t d s.notification)) [
          | inr other ↦ rw other (ground (arith, few))
          | inl counts ↦
              let same_loan : loan_id ≡ k = ground (arith, counts, s.of_loan, eq_iff loan_id k) in
              let same_type : type ≡ t = type_eq-true type t (ground (arith, counts, s.of_type)) in
              elim s.first [
                | inl unnamed ↦ absurd (named (sym same_loan ∙ unnamed))
                | inr (day, fresh) ↦
                    let same_day : date ≡ d = ground (arith, counts, day) in
                    let none_yet : count (sent_for_loan_on k t d) l ≡ 0 =
                      rw (← same_loan, ← same_type, ← same_day) fresh in
                    rw (counts, none_yet) (ground arith)
              ]
        ])
