-- ===== src/Sfu/Ingress/Cleanup.antt =====
-- What is left of a publisher that is removed.
use mathlib.Core.Path.{subst}
use meeting_system.Prelude.{
  ℕ, ◌≡◌, ◌≢◌, ◌⊎◌, refl, sym, ◌∙◌, true, false, List, [], ◌∷◌, none, some, ◌==◌, ◌||◌, arith, inl,
  inr, Bool-cases, Option-cases,
}
use meeting_system.Prelude.Assoc.{Text, is_empty, nat_eq, text_eq, lookup, erase}
use meeting_system.Prelude.Assoc.Laws.{lookup-erase, lookup-insert}
use meeting_system.Sfu.Room
use meeting_system.Sfu.Room.{Room, Publisher}
use meeting_system.Sfu.RoomManager.{get_room, with_room}
use meeting_system.Sfu.Rtp.Router
use meeting_system.Sfu.Rtp.Router.{RtpRouter}
use meeting_system.Sfu.Ingress.State.{Platform, MediaIngress, PublisherTrafficCounters}
use meeting_system.Sfu.Ingress.Packets.{SenderReportLedgerEntry}
use meeting_system.Sfu.Ingress.Routes.{without_source, remove_publisher_routes}
use meeting_system.Sfu.Ingress.Members.{in_room, forget_publisher, remove_publisher}

-- No feedback route leads to the SSRC.
unfoldable pub HasNoRoute : List (Text × ℕ) → ℕ → Type 0
HasNoRoute [] source_ssrc = Unit
HasNoRoute ((k, source) ∷ rest) source_ssrc = (source ≢ source_ssrc) × HasNoRoute rest source_ssrc

-- Nothing is kept for the SSRC: no packet, no subscriber, no endpoint, no feedback.
pub record IsForgotten {Dtls Srtp : Type 0} (m : MediaIngress Dtls Srtp) (source_ssrc : ℕ)
    : Type 0 where
  pub router : lookup source_ssrc m.router.publishers ≡ none
  pub routes : HasNoRoute m.feedback_routes source_ssrc
  pub endpoint : lookup source_ssrc m.publisher_endpoints ≡ none
  pub pli : lookup source_ssrc m.pli_forward_by_source ≡ none
  pub remb : lookup source_ssrc m.remb_feedback_by_source ≡ none
  pub estimate : lookup source_ssrc m.estimated_remb_by_source ≡ none

without_source-HasNoRoute :
    (routes : List (Text × ℕ)) (source_ssrc : ℕ)
    → HasNoRoute (without_source routes source_ssrc) source_ssrc
unfolding without_source HasNoRoute
without_source-HasNoRoute [] source_ssrc = tt
without_source-HasNoRoute ((k, source) ∷ rest) source_ssrc =
    let later = without_source-HasNoRoute rest source_ssrc in
    elim (Bool-cases (source == source_ssrc)) [
      | inl e ↦ rw e later
      | inr e ↦ rw e ((λ same. ground (arith, same, e)), later)
    ]

without_other-HasNoRoute :
    (routes : List (Text × ℕ)) (source_ssrc other : ℕ)
    → HasNoRoute routes source_ssrc
    → HasNoRoute (without_source routes other) source_ssrc
unfolding without_source HasNoRoute
without_other-HasNoRoute [] source_ssrc other h = tt
without_other-HasNoRoute ((k, source) ∷ rest) source_ssrc other (h, hs) =
    let later = without_other-HasNoRoute rest source_ssrc other hs in
    elim (Bool-cases (source == other)) [ inl e ↦ rw e later | inr e ↦ rw e (h, later) ]

same : (n : ℕ) → n == n ≡ true
same n = ground arith

lookup_erased {ℓ} : {V : Type ℓ} (k : ℕ) (m : List (ℕ × V)) → lookup k (erase k m) ≡ none
lookup_erased k m = rw (lookup-erase k k m, same k) refl

lookup_still_none {ℓ} :
    {V : Type ℓ} (k other : ℕ) (m : List (ℕ × V))
    → lookup k m ≡ none
    → lookup k (erase other m) ≡ none
lookup_still_none k other m e = elim (Bool-cases (other == k)) [
  | inl same_key ↦ rw (lookup-erase other k m, same_key) refl
  | inr differ ↦ rw (lookup-erase other k m, differ) e
]

-- The route of another SSRC is emptied and removed.
unregister_publisher-none :
    (r : RtpRouter) (k other : ℕ)
    → lookup k r.publishers ≡ none
    → lookup k (Router.unregister_publisher (Router.remove_subscribers r other) other).publishers
      ≡ none
unfolding Router.unregister_publisher Router.remove_subscribers
unregister_publisher-none r k other e = elim (Bool-cases (other == k)) [
  | inl same_key ↦
      rw (lookup-erase other k (Router.remove_subscribers r other).publishers, same_key) refl
  | inr differ ↦
      rw (lookup-erase other k (Router.remove_subscribers r other).publishers, differ)
        (elim (Option-cases (lookup other r.publishers)) [
          | inl absent ↦ rw (absent, Router.remove_subscribers) e
          | inr (route, found) ↦
              rw
                (
                  found,
                  Router.remove_subscribers,
                  lookup-insert other k (record route { subscribers = [] }) r.publishers,
                  differ,
                )
                e
        ])
]

module _ {Dtls Srtp : Type 0} where
  remove_publisher_routes-IsForgotten :
      (m : MediaIngress Dtls Srtp) (source_ssrc : ℕ)
      → source_ssrc ≢ 0
      → IsForgotten (remove_publisher_routes m source_ssrc) source_ssrc
  unfolding remove_publisher_routes
  remove_publisher_routes-IsForgotten m source_ssrc source =
      let some_source : source_ssrc == 0 ≡ false = ground (arith, source) in
      rw some_source (record {
        router = unfold Router.unregister_publisher in lookup_erased source_ssrc _;
        routes = without_source-HasNoRoute m.feedback_routes source_ssrc;
        endpoint = lookup_erased source_ssrc m.publisher_endpoints;
        pli = lookup_erased source_ssrc m.pli_forward_by_source;
        remb = lookup_erased source_ssrc m.remb_feedback_by_source;
        estimate = lookup_erased source_ssrc m.estimated_remb_by_source;
      })

  remove_other_routes-IsForgotten :
      (m : MediaIngress Dtls Srtp) (source_ssrc other : ℕ)
      → IsForgotten m source_ssrc
      → IsForgotten (remove_publisher_routes m other) source_ssrc
  unfolding remove_publisher_routes
  remove_other_routes-IsForgotten m source_ssrc other v = elim (Bool-cases (other == 0)) [
    | inl nothing ↦ rw nothing v
    | inr something ↦ rw something (record {
      router = unregister_publisher-none m.router source_ssrc other v.router;
      routes = without_other-HasNoRoute m.feedback_routes source_ssrc other v.routes;
      endpoint = lookup_still_none source_ssrc other m.publisher_endpoints v.endpoint;
      pli = lookup_still_none source_ssrc other m.pli_forward_by_source v.pli;
      remb = lookup_still_none source_ssrc other m.remb_feedback_by_source v.remb;
      estimate = lookup_still_none source_ssrc other m.estimated_remb_by_source v.estimate;
    })
  ]

  with_reports-IsForgotten :
      (m : MediaIngress Dtls Srtp) (source_ssrc : ℕ)
      (traffic : List (Text × PublisherTrafficCounters))
      (reports : List (ℕ × SenderReportLedgerEntry))
      → IsForgotten m source_ssrc
      → IsForgotten (record m { publisher_traffic = traffic; sender_reports = reports }) source_ssrc
  with_reports-IsForgotten m source_ssrc traffic reports v = record {
    router = v.router;
    routes = v.routes;
    endpoint = v.endpoint;
    pli = v.pli;
    remb = v.remb;
    estimate = v.estimate;
  }

module _ {Dtls Srtp : Type 0} (p : Platform Dtls Srtp) where
  forget_publisher-IsForgotten :
      (m : MediaIngress Dtls Srtp) (meeting_id user_id : Text) (publisher : Publisher)
      (source_ssrc : ℕ)
      → source_ssrc ≢ 0
      → (publisher.audio_ssrc ≡ source_ssrc) ⊎ (publisher.video_ssrc ≡ source_ssrc)
      → IsForgotten (forget_publisher p m meeting_id user_id (some publisher)) source_ssrc
  unfolding forget_publisher
  forget_publisher-IsForgotten m meeting_id user_id publisher source_ssrc source (inl e) =
      let audio =
        remove_publisher_routes-IsForgotten m publisher.audio_ssrc (λ z. source (sym e ∙ z)) in
      let both =
        remove_other_routes-IsForgotten (remove_publisher_routes m publisher.audio_ssrc)
          publisher.audio_ssrc publisher.video_ssrc audio in
      with_reports-IsForgotten _ source_ssrc _ _ (subst (IsForgotten _) e both)
  forget_publisher-IsForgotten m meeting_id user_id publisher source_ssrc source (inr e) =
      let video =
        remove_publisher_routes-IsForgotten (remove_publisher_routes m publisher.audio_ssrc)
          publisher.video_ssrc (λ z. source (sym e ∙ z)) in
      with_reports-IsForgotten _ source_ssrc _ _ (subst (IsForgotten _) e video)

  remove_publisher-forget :
      (m : MediaIngress Dtls Srtp) (meeting_id user_id : Text) (room : Room)
      → get_room m.rooms meeting_id ≡ some room
      → (remove_publisher p m meeting_id user_id).0 ≡ true
      → (remove_publisher p m meeting_id user_id).1
        ≡ forget_publisher p
            (record m {
              rooms = (with_room m.rooms meeting_id (λ r. Room.remove_publisher r user_id)).1;
            })
            meeting_id
            user_id
            (Room.get_publisher room user_id)
  unfolding remove_publisher in_room
  remove_publisher-forget m meeting_id user_id room hosted removed =
      elim (Bool-cases (is_empty meeting_id || is_empty user_id)) [
        | inl unnamed ↦ let refused = rw unnamed at removed in ground (arith, refused)
        | inr named ↦
            elim (Bool-cases
              (with_room m.rooms meeting_id (λ r. Room.remove_publisher r user_id)).0) [
                | inl gone ↦ rw (named, hosted, in_room) (rw gone refl)
                | inr there ↦
                    let refused = rw (named, hosted, there, in_room) at removed in
                    ground (arith, refused)
              ]
      ]

  -- After a publisher is removed, nothing is kept for an SSRC other than 0 that it had:
  -- no packet to send again, no route to a subscriber, no feedback route, no endpoint
  -- and no feedback.
  pub remove_publisher-IsForgotten :
      (m : MediaIngress Dtls Srtp) (meeting_id user_id : Text) (room : Room) (publisher : Publisher)
      (source_ssrc : ℕ)
      → get_room m.rooms meeting_id ≡ some room
      → Room.get_publisher room user_id ≡ some publisher
      → (remove_publisher p m meeting_id user_id).0 ≡ true
      → source_ssrc ≢ 0
      → (publisher.audio_ssrc ≡ source_ssrc) ⊎ (publisher.video_ssrc ≡ source_ssrc)
      → IsForgotten (remove_publisher p m meeting_id user_id).1 source_ssrc
  remove_publisher-IsForgotten m meeting_id user_id room publisher source_ssrc hosted published
        removed source owned =
      let e = remove_publisher-forget m meeting_id user_id room hosted removed in
      let forgotten = rw published at e in
      subst (λ after. IsForgotten after source_ssrc) (sym forgotten)
        (forget_publisher-IsForgotten _ meeting_id user_id publisher source_ssrc source owned)
