-- ===== src/Reversible/Effects.antt =====
-- What the successful calls of pallets/reversible-transfers/src/lib.rs have done.
use chain_testing.Prelude.{
  ℕ, ◌-◌, ◌≡◌, ◌∙◌, ◌≤◌, refl, sym, ap, Option, none, some, true, false, not, if◌then◌else◌, leb,
  leb→le, ◌==◌, ==→eq, is_some, update,
}
use chain_testing.Dispatch.{
  Origin, DispatchResult, done, refused, frame_error, done_eq, ensure_inv, ensure_signed_inv,
  or_fail_inv, or_refuse_inv, try_inv, not_inv, signed,
}
use chain_testing.Reversible.Types.{
  DelayPolicy, ReversibleAccountData, PendingTransfer, RuntimeCall, ReversibleError, not_owner,
  invalid_reverser, ReversibleConfig, Substrate, Reversibles,
}
use chain_testing.Reversible.Calls.{
  unwrap_or, is_other, ensure_may_cancel, count_one_less, world_after, set_reversibility,
  make_schedule_id, give_back, cancel_transfer, do_execute_transfer, execute_transfer,
}

-- The account that may cancel the transfers of an owner.
abbrev pub canceller : Option ℕ → ℕ → ℕ
canceller none owner = owner
canceller (some reverser) owner = reverser

may_cancel_inv :
    {A : Type 0} (reverser : Option ℕ) (owner who : ℕ) (rest : DispatchResult ReversibleError A)
    {a : A}
    → ensure_may_cancel reverser owner who rest ≡ done a
    → (who ≡ canceller reverser owner) × (rest ≡ done a)
may_cancel_inv none owner who rest e =
    let (same, e1) = ensure_inv (owner == who) not_owner rest e in (sym (==→eq owner who same), e1)
may_cancel_inv (some reverser) owner who rest e =
    let (same, e1) = ensure_inv (who == reverser) invalid_reverser rest e in
    (==→eq who reverser same, e1)

-- An execution ends as its call did.
post_info_inv :
    {World : Type 0} (post_info : Option World) (s s' : Reversibles World)
    → Path
        (DispatchResult ReversibleError (Reversibles World))
        (if is_some post_info then done s else refused frame_error)
        (done s')
    → (world : World) × (post_info ≡ some world) × (s ≡ s')
post_info_inv none s s' e = absurd cc
post_info_inv (some world) s s' e = (world, refl, done_eq e)

module _ {World : Type 0} (substrate : Substrate World) (c : ReversibleConfig) where
  -- The settings of an account, which had none.
  pub record IsSetting (who : ℕ) (account_data : ReversibleAccountData) (s s' : Reversibles World)
      : Type 0 where
    pub fresh : is_some (s.reversible_accounts who) ≡ false
    pub other : is_other account_data.explicit_reverser who ≡ true
    pub long : c.min_delay_period ≤ account_data.delay
    pub accounts : s'.reversible_accounts ≡ update s.reversible_accounts who (some account_data)
    pub pending : s'.pending_transfers ≡ s.pending_transfers
    pub index : s'.account_pending_index ≡ s.account_pending_index
    pub world : s'.world ≡ s.world

  pub set_reversibility-IsSetting :
      (origin : Origin) (delay : Option ℕ) (policy : DelayPolicy) (reverser : Option ℕ)
      (s : Reversibles World) {s' : Reversibles World}
      → set_reversibility substrate c origin delay policy reverser s ≡ done s'
      → (who : ℕ) × (origin ≡ signed who)
        × IsSetting who
            (record {
              explicit_reverser = reverser;
              delay = unwrap_or delay c.default_delay;
              policy = policy;
            })
            s
            s'
  unfolding set_reversibility
  set_reversibility-IsSetting origin delay policy reverser s {s'} e =
      let (who, from, e1) = ensure_signed_inv origin _ e in
      let (fresh, e2) = ensure_inv (not (is_some (s.reversible_accounts who))) _ _ e1 in
      let (other, e3) = ensure_inv (is_other reverser who) _ _ e2 in
      let (long, e4) =
        ensure_inv (leb c.min_delay_period (unwrap_or delay c.default_delay)) _ _ e3 in
      let end = done_eq e4 in
      (
        who,
        from,
        record {
          fresh = not_inv _ fresh;
          other = other;
          long = leb→le _ _ long;
          accounts = sym (ap (λ (t : Reversibles World). t.reversible_accounts) end);
          pending = sym (ap (λ (t : Reversibles World). t.pending_transfers) end);
          index = sym (ap (λ (t : Reversibles World). t.account_pending_index) end);
          world = sym (ap (λ (t : Reversibles World). t.world) end);
        },
      )

  -- One transfer less.
  pub record IsRemoval (tx_id : ℕ) (p : PendingTransfer) (s s' : Reversibles World) : Type 0 where
    pub known : s.pending_transfers tx_id ≡ some p
    pub accounts : s'.reversible_accounts ≡ s.reversible_accounts
    pub pending : s'.pending_transfers ≡ update s.pending_transfers tx_id (count_one_less p)
    pub index :
        s'.account_pending_index
        ≡ update s.account_pending_index p.who (s.account_pending_index p.who - 1)

  -- A cancellation: by whom, of which scheduled task, and where the held amount went.
  pub record IsCancelled (who tx_id : ℕ) (s s' : Reversibles World) : Type 0 where
    pub p : PendingTransfer
    pub account_data : ReversibleAccountData
    pub name : ℕ
    pub world : World
    pub removal : IsRemoval tx_id p s s'
    pub reversible : s.reversible_accounts p.who ≡ some account_data
    pub authorised : who ≡ canceller account_data.explicit_reverser p.who
    pub named : substrate.task_name tx_id p.count ≡ some name
    pub unscheduled : substrate.cancel_named name s.world ≡ some world
    pub given_back : give_back substrate c account_data.explicit_reverser p world ≡ some s'.world

  pub cancel_transfer-IsCancelled :
      (who tx_id : ℕ) (s : Reversibles World) {s' : Reversibles World}
      → cancel_transfer substrate c who tx_id s ≡ done s'
      → IsCancelled who tx_id s s'
  unfolding cancel_transfer make_schedule_id give_back
  cancel_transfer-IsCancelled who tx_id s {s'} e =
      let (p, known, e1) = or_fail_inv (s.pending_transfers tx_id) _ _ e in
      let (account_data, reversible, e2) = or_fail_inv (s.reversible_accounts p.who) _ _ e1 in
      let (authorised, e3) = may_cancel_inv account_data.explicit_reverser p.who who _ e2 in
      let (id, e4, e5) = try_inv (make_schedule_id substrate c tx_id p.count) _ e3 in
      let (name, named, e6) = or_fail_inv (substrate.task_name tx_id p.count) _ _ e4 in
      let (world, unscheduled, e7) = or_fail_inv (substrate.cancel_named id s.world) _ _ e5 in
      let (world', given_back, e8) =
        or_refuse_inv (give_back substrate c account_data.explicit_reverser p world) _ e7 in
      let end = done_eq e8 in
      record {
        p = p;
        account_data = account_data;
        name = id;
        world = world;
        removal = record {
          known = known;
          accounts = sym (ap (λ (t : Reversibles World). t.reversible_accounts) end);
          pending = sym (ap (λ (t : Reversibles World). t.pending_transfers) end);
          index = sym (ap (λ (t : Reversibles World). t.account_pending_index) end);
        };
        reversible = reversible;
        authorised = authorised;
        named = named ∙ ap some (done_eq e6);
        unscheduled = unscheduled;
        given_back = given_back ∙ ap (λ (t : Reversibles World). some t.world) end;
      }

  -- An execution: the held amount is released, and the call that the pallet realizes succeeds.
  pub record IsExecuted (tx_id : ℕ) (s s' : Reversibles World) : Type 0 where
    pub p : PendingTransfer
    pub call : RuntimeCall
    pub world_realized : World
    pub world_released : World
    pub removal : IsRemoval tx_id p s s'
    pub realized : substrate.realize p.call s.world ≡ some (call, world_realized)
    pub released : substrate.release p.who p.amount world_realized ≡ some world_released
    pub dispatched : substrate.dispatch call p.who world_released ≡ some s'.world

  pub execute_transfer-IsExecuted :
      (origin : Origin) (tx_id : ℕ) (s : Reversibles World) {s' : Reversibles World}
      → execute_transfer substrate c origin tx_id s ≡ done s'
      → (origin ≡ signed c.account_id) × IsExecuted tx_id s s'
  unfolding execute_transfer do_execute_transfer
  execute_transfer-IsExecuted origin tx_id s {s'} e =
      let (who, from, e1) = ensure_signed_inv origin _ e in
      let (own, e2) = ensure_inv (who == c.account_id) _ _ e1 in
      let (p, known, e3) = or_fail_inv (s.pending_transfers tx_id) _ _ e2 in
      let ((call, world1), realized, e4) = or_fail_inv (substrate.realize p.call s.world) _ _ e3 in
      let (world2, released, e5) = or_refuse_inv (substrate.release p.who p.amount world1) _ e4 in
      let (world3, dispatched, end) =
        post_info_inv (substrate.dispatch call p.who world2) _ s' e5 in
      (
        from ∙ ap signed (==→eq who c.account_id own),
        record {
          p = p;
          call = call;
          world_realized = world1;
          world_released = world2;
          removal = record {
            known = known;
            accounts = sym (ap (λ (t : Reversibles World). t.reversible_accounts) end);
            pending = sym (ap (λ (t : Reversibles World). t.pending_transfers) end);
            index = sym (ap (λ (t : Reversibles World). t.account_pending_index) end);
          };
          realized = realized;
          released = released;
          dispatched =
              dispatched
              ∙ sym (ap (λ post_info. some (world_after post_info world2)) dispatched)
              ∙ ap (λ (t : Reversibles World). some t.world) end;
        },
      )
