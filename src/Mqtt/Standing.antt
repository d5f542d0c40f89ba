-- ===== src/Mqtt/Standing.antt =====
-- Which limit is re-applied when a charger's link comes up (src/mqtt.rs).
use ocpp_proxy.Base.{
  ℕ, String, Bool, true, false, ◌==◌, Option, none, some, ◌≡◌, ◌≢◌, refl, sym, ap, ◌∙◌, ◌⊎◌, inl,
  inr, arith, Bool-cases, Option-cases, option_bind, Result-cases, if◌then◌else◌, lookup, insert,
  lookup-insert, unwrap_or, eq_iff, eq_refl,
}
use ocpp_proxy.Base.Float.{F64}
use ocpp_proxy.Json.{Json}
use ocpp_proxy.Models.Backoff.{Seconds}
use ocpp_proxy.Models.{connected, same_state}
use ocpp_proxy.Config.Charging.{ChargingConfig}
use ocpp_proxy.Command.{
  CommandResult, CommandStatus, accepted, rejected, error, timeout, not_connected, invalid,
  superseded, is_limit_result, is_accepted, status_str,
}
use ocpp_proxy.Command.Topics.{command_result_topic}
use ocpp_proxy.Command.{result_json}
use ocpp_proxy.Command.Payload.{Decoders}
use ocpp_proxy.Mqtt.{MqttMessage, MqttPublisher, Client}
use ocpp_proxy.Mqtt.Snapshot.{ChargePointState, no_state, apply_command_result, standing}
use ocpp_proxy.Mqtt.Snapshot.Sessions.{apply_command_result_lem}
use ocpp_proxy.Mqtt.Buffer.{enqueue, drain_connected, drain_buffer, buffer_message}
use ocpp_proxy.Mqtt.Handling.{
  Clock, publish_command_result, publish_charge_point_state, standing_limit, enqueue_json,
  update_snapshot, accepted_limit,
}

module _ {Tx W Bytes : Type 0} (client : Client Tx W) (d : Decoders Bytes) (rfc3339 : ℕ → String)
    (secs : Seconds) (at : Clock) where
  -- Queueing a message leaves the snapshots and the configuration.
  enqueue-keeps :
      (m : MqttMessage) (p : MqttPublisher Tx) (w : W)
      → ((enqueue client m p w).0.charge_point_state ≡ p.charge_point_state)
        × ((enqueue client m p w).0.charging ≡ p.charging)
  unfolding enqueue drain_connected buffer_message drain_buffer
  enqueue-keeps m p w = elim (Bool-cases (same_state p.state connected)) [
    | inl e ↦ rw e (refl, refl)
    | inr e ↦ rw e (refl, refl)
  ]

  enqueue_json-keeps :
      (topic : String) (v : Json) (retain : Bool) (p : MqttPublisher Tx) (w : W)
      → let r = enqueue_json client d rfc3339 secs at topic v retain p w in
        (r.0.charge_point_state ≡ p.charge_point_state) × (r.0.charging ≡ p.charging)
  unfolding enqueue_json
  enqueue_json-keeps topic v retain p w = elim (Result-cases (client.to_vec v)) [
    | inl (payload, e) ↦ rw (e, enqueue_json) (enqueue-keeps _ p w)
    | inr (e, f) ↦ rw (f, enqueue_json) (refl, refl)
  ]

  -- the entry of `id` after an update, and the entries of the others
  update_snapshot-entries :
      (id : String) (change : ChargePointState → Bool × ChargePointState) (p : MqttPublisher Tx)
      (w : W)
      → let r = update_snapshot client d rfc3339 secs at id change p w in
        (r.0.charge_point_state
          ≡ insert id
              (change (unwrap_or (lookup id p.charge_point_state) no_state)).1
              p.charge_point_state)
        × (r.0.charging ≡ p.charging)
  unfolding update_snapshot publish_charge_point_state
  update_snapshot-entries id change p w =
      elim (Bool-cases (change (unwrap_or (lookup id p.charge_point_state) no_state)).0) [
        | inl e ↦ rw (e, update_snapshot) (enqueue_json-keeps _ _ _ _ _)
        | inr e ↦ rw (e, update_snapshot) (refl, refl)
      ]

  accepted_str : (c : CommandStatus) → (status_str c == "accepted") ≡ is_accepted c
  accepted_str accepted = refl
  accepted_str rejected = refl
  accepted_str error = refl
  accepted_str timeout = refl
  accepted_str not_connected = refl
  accepted_str invalid = refl
  accepted_str superseded = refl

  not_accepted : (c : CommandStatus) → c ≢ accepted → is_accepted c ≡ false
  not_accepted c h = ground arith

  -- what a limit's result leaves to be re-applied
  accepted_limit-result :
      (r : CommandResult) (s : ChargePointState) (o : Option F64)
      → s.current_limit_status ≡ some (status_str r.status)
      → ((r.status ≡ accepted) × (s.current_limit_a ≡ standing r))
        ⊎ ((r.status ≢ accepted) × (s.current_limit_a ≡ o))
      → accepted_limit client d rfc3339 secs at s
        ≡ (if is_accepted r.status then standing r else none)
  unfolding accepted_limit
  accepted_limit-result r s o status (inl (was, kept)) =
      rw (status, accepted_str r.status, ap is_accepted was, kept) refl
  accepted_limit-result r s o status (inr (not, kept)) =
      rw (status, accepted_str r.status, not_accepted r.status not) refl

  accepted_limit-apply :
      (r : CommandResult) (s : ChargePointState)
      → is_limit_result r ≡ true
      → accepted_limit client d rfc3339 secs at (apply_command_result at.stamp r s).1
        ≡ (if is_accepted r.status then standing r else none)
  accepted_limit-apply r s limit =
      let (outcome, e, t) = apply_command_result_lem at.stamp r s in
      elim outcome [
        | inl (other, same) ↦ absurd (ground (arith, limit, other))
        | inr (l, status, limits) ↦ accepted_limit-result r _ s.current_limit_a status limits
      ]

  publish_command_result-entries :
      (id : String) (r : CommandResult) (p : MqttPublisher Tx) (w : W)
      → let p' = (publish_command_result client d rfc3339 secs at id r p w).0 in
        (p'.charge_point_state
          ≡ insert id
              (apply_command_result at.stamp r
                (unwrap_or (lookup id p.charge_point_state) no_state)).1
              p.charge_point_state)
        × (p'.charging ≡ p.charging)
  unfolding publish_command_result
  publish_command_result-entries id r p w =
      let (queued, w') =
        enqueue_json client d rfc3339 secs at (command_result_topic id) (result_json r) false p w in
      let (same, same_charging) =
        enqueue_json-keeps (command_result_topic id) (result_json r) false p w in
      let (entries, kept) =
        update_snapshot-entries id (apply_command_result at.stamp r) queued w' in
      (
        entries
            ∙ ap
                (λ m.
                  insert id (apply_command_result at.stamp r (unwrap_or (lookup id m) no_state)).1
                    m)
                same,
        kept ∙ same_charging,
      )

  -- the limit that is re-applied, from the entry of the charger
  standing_limit-entry :
      (id : String) (p : MqttPublisher Tx) (charging : ChargingConfig) (o : Option ChargePointState)
      → p.charging ≡ some charging
      → charging.reapply_on_connect ≡ true
      → lookup id p.charge_point_state ≡ o
      → standing_limit client d rfc3339 secs at id p
        ≡ option_bind o (accepted_limit client d rfc3339 secs at)
  unfolding standing_limit
  standing_limit-entry id p charging o e on found =
      rw (e, standing_limit)
        (rw on (ap (λ o. option_bind o (accepted_limit client d rfc3339 secs at)) found))

  result-standing_limit :
      (id other : String) (r : CommandResult) (p : MqttPublisher Tx) (w : W)
      (charging : ChargingConfig)
      → is_limit_result r ≡ true
      → other ≢ id
      → p.charging ≡ some charging
      → charging.reapply_on_connect ≡ true
      → let p' = (publish_command_result client d rfc3339 secs at id r p w).0 in
        (standing_limit client d rfc3339 secs at id p'
          ≡ (if is_accepted r.status then standing r else none))
        × (standing_limit client d rfc3339 secs at other p'
            ≡ standing_limit client d rfc3339 secs at other p)
  result-standing_limit id other r p w charging limit different e on =
      let p' = (publish_command_result client d rfc3339 secs at id r p w).0 in
      let (entries, kept) = publish_command_result-entries id r p w in
      let found = λ (other : String).
        ap (lookup other) entries ∙ lookup-insert id other _ p.charge_point_state in
      (
        standing_limit-entry id p' charging
              (some
                (apply_command_result at.stamp r
                  (unwrap_or (lookup id p.charge_point_state) no_state)).1)
              (kept ∙ e) on (found id ∙ rw (eq_refl id) refl)
            ∙ accepted_limit-apply r _ limit,
        standing_limit-entry other p' charging (lookup other p.charge_point_state) (kept ∙ e) on
              (found other ∙ ground (arith, eq_iff id other))
            ∙ sym (standing_limit-entry other p charging _ e on refl),
      )

  -- The limit command of the result, and the limit that it stands for where it is accepted.
  standing-cases :
      (r : CommandResult)
      → is_limit_result r ≡ true
      → ((r.action ≡ some "SetChargingProfile") × (standing r ≡ r.applied_limit_a))
        ⊎ ((r.action ≡ some "ClearChargingProfile") × (standing r ≡ none))
  unfolding is_limit_result
  standing-cases r limit = elim (Option-cases r.action) [
    | inl e ↦ absurd (ground (arith, e, limit))
    | inr (a, e) ↦ elim (Bool-cases (a == "SetChargingProfile")) [
      | inl set ↦ inl (e ∙ ap some ((eq_iff a "SetChargingProfile").0 set), rw (e, set) refl)
      | inr other ↦
          let clears : (a == "ClearChargingProfile") ≡ true = ground (arith, e, limit, other) in
          inr (e ∙ ap some ((eq_iff a "ClearChargingProfile").0 clears), rw (e, other) refl)
    ]
  ]

  -- After the result of a limit command, and where limits are to be re-applied, the limit that is re-applied to
  -- that charger is the applied limit of the result if it accepts a `SetChargingProfile`, and none if it accepts a
  -- `ClearChargingProfile` or has any other status. The limits of the other chargers stay.
  pub publish_command_result-standing_limit :
      (id other : String) (r : CommandResult) (p : MqttPublisher Tx) (w : W)
      (charging : ChargingConfig)
      → is_limit_result r ≡ true
      → other ≢ id
      → p.charging ≡ some charging
      → charging.reapply_on_connect ≡ true
      → let p' = (publish_command_result client d rfc3339 secs at id r p w).0 in
        let limit = standing_limit client d rfc3339 secs at id p' in
        (((r.status ≡ accepted)
            × (r.action ≡ some "SetChargingProfile")
            × (limit ≡ r.applied_limit_a))
          ⊎ (((r.status ≡ accepted) × (r.action ≡ some "ClearChargingProfile") × (limit ≡ none))
              ⊎ ((r.status ≢ accepted) × (limit ≡ none))))
        × (standing_limit client d rfc3339 secs at other p'
            ≡ standing_limit client d rfc3339 secs at other p)
  publish_command_result-standing_limit id other r p w charging limit different e on =
      let (own, others) = result-standing_limit id other r p w charging limit different e on in
      (
        elim (Bool-cases (is_accepted r.status)) [
          | inr refuses ↦
              inr (inr (λ was. absurd (ground (arith, was, refuses)), own ∙ rw refuses refl))
          | inl accepts ↦
              let was : r.status ≡ accepted = ground (arith, accepts) in
              let stands = own ∙ rw accepts refl in
              elim (standing-cases r limit) [
                | inl (set, s) ↦ inl (was, set, stands ∙ s)
                | inr (clear, s) ↦ inr (inl (was, clear, stands ∙ s))
              ]
        ],
        others,
      )
