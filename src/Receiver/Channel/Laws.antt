-- ===== src/Receiver/Channel/Laws.antt =====
-- receiver_channel.cpp: launching and joining an application.
use libchromecast.Prelude.{
  ◌≤◌, ◌≡◌, refl, ap, false, List, [], ◌∷◌, ◌++◌, Bytes, str_eq, Option, none, some, length,
  Option-cases, inl, inr, ◌⊎◌, arith, length-append,
}
use libchromecast.Utils.{ok}
use libchromecast.Receiver.Messages.{ApplicationInfo, ReceiverStatus}
use libchromecast.Receiver.Channel.{
  Call, initialize, call_back, on_stopped, given, stored, ReceiverChannel, first_of, launched,
  look_for, stop, assign_status, on_receiver_status, launch, join_completed, joined, on_status,
  is_launched,
}

module _ {A K D : Type 0} (get_id : A → Bytes) where
  -- Statuses that come one after another.
  unfoldable pub on_statuses :
      List (ReceiverStatus D) → ReceiverChannel A K D → List (Call A K) × ReceiverChannel A K D
  on_statuses [] r = ([], r)
  on_statuses (status ∷ statuses) r =
      let (calls, r') = on_receiver_status get_id status r in
      let (calls', r'') = on_statuses statuses r' in (calls ++ calls', r'')

  look_for-calls :
      (a : Option A) (apps : List ApplicationInfo) (r : ReceiverChannel A K D)
      → (r.launching_application ≡ false
          → ((look_for get_id a apps r).0 ≡ [])
            × ((look_for get_id a apps r).1.launching_application ≡ false))
        × (((look_for get_id a apps r).0 ≡ [])
            ⊎ ((length (look_for get_id a apps r).0 ≡ 1)
                × ((look_for get_id a apps r).1.launching_application ≡ false)))
  unfolding look_for launched
  look_for-calls none apps r = (λ e. (refl, e), inl refl)
  look_for-calls (some a) apps r = ground arith

  on_receiver_status-calls :
      (status : ReceiverStatus D) (r : ReceiverChannel A K D)
      → (r.launching_application ≡ false
          → ((on_receiver_status get_id status r).0 ≡ [])
            × ((on_receiver_status get_id status r).1.launching_application ≡ false))
        × (((on_receiver_status get_id status r).0 ≡ [])
            ⊎ ((length (on_receiver_status get_id status r).0 ≡ 1)
                × ((on_receiver_status get_id status r).1.launching_application ≡ false)))
  unfolding on_receiver_status
  on_receiver_status-calls status r =
      look_for-calls r.application status.applications
        (record r { last_full_status = assign_status status r.last_full_status })

  on_statuses-idle :
      (statuses : List (ReceiverStatus D)) (r : ReceiverChannel A K D)
      → r.launching_application ≡ false
      → (on_statuses statuses r).0 ≡ []
  unfolding on_statuses
  on_statuses-idle [] r e = refl
  on_statuses-idle (status ∷ statuses) r e =
      let (none_called, idle) = (on_receiver_status-calls status r).0 e in
      rw (on_statuses, none_called)
        (on_statuses-idle statuses (on_receiver_status get_id status r).1 idle)

  -- Whatever statuses come one after another without a Launch in between, an application is
  -- initialized once at most, and never if none is being launched.
  pub length-on_statuses :
      (statuses : List (ReceiverStatus D)) (r : ReceiverChannel A K D)
      → (length (on_statuses statuses r).0 ≤ 1)
        × (r.launching_application ≡ false → (on_statuses statuses r).0 ≡ [])
  unfolding on_statuses
  length-on_statuses [] r = (omega arith, λ e. refl)
  length-on_statuses (status ∷ statuses) r =
      let (_, outcome) = on_receiver_status-calls status r in
      let r' = (on_receiver_status get_id status r).1 in
      (
        elim outcome [
          | inl nothing ↦ rw (on_statuses, nothing) (length-on_statuses statuses r').0
          | inr (one, idle) ↦
              let added =
                length-append (on_receiver_status get_id status r).0 (on_statuses statuses r').0 in
              let none_later = ap length (on_statuses-idle statuses r' idle) in
              omega (arith, added, none_later, one)
        ],
        λ e. on_statuses-idle (status ∷ statuses) r e,
      )

  -- After a Launch whose request is sent, the next status initializes the application with the
  -- first entry whose id is the application's or whose name contains it, and calls nothing if
  -- there is none; the Launch tells the application that was there before that it is stopped.
  pub on_receiver_status-launch :
      (application : A) (callback : Option K) (status : ReceiverStatus D)
      (r : ReceiverChannel A K D)
      → let (result, stopped, r') = launch (some application) callback (ok tt) r in
        (result ≡ ok tt)
        × ((a : A) → r.application ≡ some a → stopped ≡ on_stopped a ∷ [])
        × ((info : ApplicationInfo)
            → first_of (is_launched (get_id application)) status.applications ≡ some info
            → (on_receiver_status get_id status r').0 ≡ initialize application info stored ∷ [])
        × (first_of (is_launched (get_id application)) status.applications ≡ none
            → (on_receiver_status get_id status r').0 ≡ [])
  unfolding launch on_receiver_status look_for launched
  on_receiver_status-launch application callback status r =
      (refl, λ a e. ap stop e, λ info e. rw e refl, λ e. rw e refl)

  -- A Join that is answered calls back with false if the application is null, another one is
  -- there, or the status has no entry of its id; otherwise it initializes the application with
  -- that entry and the callback, and keeps it.
  pub join_completed-cases :
      (application : Option A) (callback : K) (status : ReceiverStatus D)
      (r : ReceiverChannel A K D)
      → (((join_completed get_id application callback status r).0 ≡ call_back callback false ∷ [])
          × ((join_completed get_id application callback status r).1.application ≡ r.application)
          × ((a : A)
              → application ≡ some a
              → r.application ≡ none
              → first_of (λ info. str_eq info.application_id (get_id a)) status.applications
                ≡ none))
        ⊎ ((a : A) × (info : ApplicationInfo) × (application ≡ some a)
            × (r.application ≡ none)
            × (first_of (λ info. str_eq info.application_id (get_id a)) status.applications
                ≡ some info)
            × ((join_completed get_id application callback status r).0
                ≡ initialize a info (given callback) ∷ [])
            × ((join_completed get_id application callback status r).1.application ≡ some a))
  unfolding join_completed joined on_status
  join_completed-cases none callback status r = inl (refl, refl, λ a e. absurd (cc))
  join_completed-cases (some a) callback status r = elim (Option-cases r.application) [
    | inr (other, e) ↦ inl (rw (join_completed, e) (refl, e, λ b e' e''. absurd (cc)))
    | inl e ↦
        elim (Option-cases
          (first_of (λ info. str_eq info.application_id (get_id a)) status.applications)) [
            | inl missing ↦ inl (
                rw (join_completed, e, missing)
                  (refl, e, λ b e' e''. let same : b ≡ a = cc in rw same missing))
            | inr (info, found) ↦ inr (
              a,
              info,
              refl,
              e,
              found,
              rw (join_completed, e, found) refl,
              rw (join_completed, e, found) refl,
            )
          ]
  ]
