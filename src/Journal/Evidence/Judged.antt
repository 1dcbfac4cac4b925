-- ===== src/Journal/Evidence/Judged.antt =====
-- The judgements of `evaluate` on one answer of the provider.
use agent_cloud.Base.{
  ℕ, Bool, true, false, Option, none, some, ◌≡◌, refl, sym, subst, inl, inr, ◌&&◌, ◌||◌, not, ◌==◌,
  ◌!=◌, nat_eq, option_eq, if◌then◌else◌, arith,
}
use agent_cloud.Base.Result.{ok}
use agent_cloud.Contracts.Provider.{
  network_ip, ProviderCommand, ResourceKind, ResourceRef, ResourceObservation, ProviderServer,
  ProviderPrimaryIp, Power, BackupStatus, power_eq, backup_status_eq, is_server_create_command,
  is_unassigned,
}
use agent_cloud.Journal.Resources.{matches_labels}
use agent_cloud.Journal.Evaluate.{
  Evaluation, Subject, required_labels, still_pending, when_shown, is_wrong_ip, judge_ip,
  judge_ip_answer, judge_missing, judge_created, judge_shown, judge_server, judge_server_answer,
}
use agent_cloud.Journal.Evidence.{is_definite, HasEffect, HasAddress, IsShown}

-- Which observations a judgement may confirm.
abbrev pub Confirms : (ResourceObservation → Type 0) → Evaluation → Type 0
Confirms P (Evaluation.confirmed observed) = P observed
Confirms P (Evaluation.failed failure) = ⊥
Confirms P (Evaluation.pending progress) = Unit

Confirms-pending :
    (P : ResourceObservation → Type 0) (uncertain : Bool) (resource : ResourceRef)
    → Confirms P (still_pending uncertain resource)
Confirms-pending P true resource = tt
Confirms-pending P false resource = tt

Confirms-if :
    (P : ResourceObservation → Type 0) (b : Bool) (x y : Evaluation)
    → (b ≡ true → Confirms P x)
    → (b ≡ false → Confirms P y)
    → Confirms P (if b then x else y)
Confirms-if P true x y kx ky = kx refl
Confirms-if P false x y kx ky = ky refl

Confirms-shown :
    (P : ResourceObservation → Type 0) (b : Bool) (uncertain : Bool) (resource : ResourceRef)
    (server : ProviderServer)
    → (b ≡ true → P (ResourceObservation.saw_server server))
    → Confirms P (when_shown b (still_pending uncertain resource) server)
Confirms-shown P true uncertain resource server k = k refl
Confirms-shown P false uncertain resource server k = Confirms-pending P uncertain resource

is_power :
    (server : ProviderServer) (power : Power)
    → (server.power == power) ≡ true
    → server.power ≡ power
is_power server power h = (power_eq.beq_iff server.power power).0 h

module _ (subject : Subject) (uncertain : Bool) (resource : ResourceRef) where
  judge_created-Confirms :
      (P : ResourceObservation → Type 0) (server_type region : ℕ) (ip : Option ℕ)
      (server : ProviderServer)
      → ((server.server_type ≡ server_type)
          → (server.region ≡ region)
          → (server.primary_ip_id ≡ ip)
          → (server.power ≡ Power.running)
          → P (ResourceObservation.saw_server server))
      → Confirms P (judge_created server_type region ip (still_pending uncertain resource) server)
  judge_created-Confirms P server_type region ip server k =
      Confirms-if P
        (server.server_type != server_type || server.region != region || server.primary_ip_id != ip)
        _ _ (λ _. tt)
        λ same. Confirms-shown P (server.power == Power.running) uncertain resource server λ on.
          k (ground arith) (ground arith)
            ((option_eq.beq_iff server.primary_ip_id ip).0 (ground arith))
            (is_power server Power.running on)

module _ (subject : Subject) (uncertain : Bool) (resource : ResourceRef)
    (definite : uncertain ≡ false → is_definite subject.attempt.outcome ≡ true) where
  -- What the last switch of `evaluate` confirms.
  abbrev ShownEffect : ProviderCommand → ProviderServer → ResourceObservation → Type 0
  ShownEffect command server observed =
      (observed ≡ ResourceObservation.saw_server server)
      × HasEffect subject.attempt.outcome command server

  judge_shown-Confirms :
      (command : ProviderCommand) (server : ProviderServer)
      → Confirms (ShownEffect command server) (judge_shown uncertain resource command server)
  unfolding judge_shown
  judge_shown-Confirms (ProviderCommand.create server_type region labels network) server =
      judge_created-Confirms subject uncertain resource _ server_type region (network_ip network)
        server λ a b c d. (refl, (a, b, c, d))
  judge_shown-Confirms (ProviderCommand.create_guest server_type region labels ip bootstrap)
        server =
      judge_created-Confirms subject uncertain resource _ server_type region (some ip) server
        λ a b c d. (refl, (a, b, c, d))
  judge_shown-Confirms (ProviderCommand.resize id server_type) server =
      Confirms-shown _ (server.server_type == server_type) uncertain resource server
        λ e. (refl, ground arith)
  judge_shown-Confirms (ProviderCommand.enable_backup id) server =
      Confirms-shown _ (server.backup_status == BackupStatus.enabled) uncertain resource server
        λ e. (refl, (backup_status_eq.beq_iff server.backup_status BackupStatus.enabled).0 e)
  judge_shown-Confirms (ProviderCommand.power_off id) server =
      Confirms-shown _ (server.power == Power.off) uncertain resource server
        λ e. (refl, is_power server Power.off e)
  judge_shown-Confirms (ProviderCommand.power_on id) server =
      Confirms-shown _ (server.power == Power.running) uncertain resource server
        λ e. (refl, is_power server Power.running e)
  judge_shown-Confirms (ProviderCommand.reboot id) server =
      Confirms-shown _ (not uncertain && server.power == Power.running) uncertain resource server
        λ e. (refl, (is_power server Power.running (ground arith), definite (ground arith)))
  judge_shown-Confirms (ProviderCommand.destroy id) server = Confirms-pending _ uncertain resource
  judge_shown-Confirms (ProviderCommand.create_primary_ip region labels) server = tt
  judge_shown-Confirms (ProviderCommand.delete_primary_ip id) server = tt

  gone_or_pending :
      (command : ProviderCommand)
      → Confirms
          (λ o. o ≡ ResourceObservation.absent resource)
          (if subject.recovering && not uncertain && is_server_create_command command
            then Evaluation.confirmed (ResourceObservation.absent resource)
            else still_pending uncertain resource)
  gone_or_pending command =
      Confirms-if _ (subject.recovering && not uncertain && is_server_create_command command) _ _
        (λ _. refl) λ _. Confirms-pending _ uncertain resource

  -- An answer that the server is not there.
  judge_missing-Confirms :
      (command : ProviderCommand)
      → Confirms
          (λ o. o ≡ ResourceObservation.absent resource)
          (judge_missing subject uncertain resource command)
  unfolding judge_missing
  judge_missing-Confirms (ProviderCommand.destroy id) = refl
  judge_missing-Confirms (ProviderCommand.create a b c d) =
      gone_or_pending (ProviderCommand.create a b c d)
  judge_missing-Confirms (ProviderCommand.create_guest a b c d f) =
      gone_or_pending (ProviderCommand.create_guest a b c d f)
  judge_missing-Confirms (ProviderCommand.resize a b) = gone_or_pending (ProviderCommand.resize a b)
  judge_missing-Confirms (ProviderCommand.enable_backup a) =
      gone_or_pending (ProviderCommand.enable_backup a)
  judge_missing-Confirms (ProviderCommand.power_off a) =
      gone_or_pending (ProviderCommand.power_off a)
  judge_missing-Confirms (ProviderCommand.power_on a) = gone_or_pending (ProviderCommand.power_on a)
  judge_missing-Confirms (ProviderCommand.reboot a) = gone_or_pending (ProviderCommand.reboot a)
  judge_missing-Confirms (ProviderCommand.create_primary_ip a b) =
      gone_or_pending (ProviderCommand.create_primary_ip a b)
  judge_missing-Confirms (ProviderCommand.delete_primary_ip a) =
      gone_or_pending (ProviderCommand.delete_primary_ip a)

  absent_here :
      (n : ℕ)
      → subject.provider.get_server n resource.id ≡ ok none
      → resource.kind ≡ ResourceKind.server
      → (v : Evaluation) → Confirms (λ o. o ≡ ResourceObservation.absent resource) v
      → Confirms (IsShown subject) v
  absent_here n answered kind (Evaluation.confirmed o) h =
      subst (IsShown subject) (sym h) (inl (n, answered, kind))
  absent_here n answered kind (Evaluation.pending p) h = tt
  absent_here n answered kind (Evaluation.failed f) h = absurd h

  seen_here :
      (n : ℕ) (server : ProviderServer)
      → subject.provider.get_server n resource.id ≡ ok (some server)
      → server.id ≡ resource.id
      → matches_labels server.labels (required_labels subject subject.attempt.command) ≡ true
      → (v : Evaluation) → Confirms (ShownEffect subject.attempt.command server) v
      → Confirms (IsShown subject) v
  seen_here n server answered same labels (Evaluation.confirmed o) (e, f) =
      subst (IsShown subject) (sym e) (
        ((
          n,
          subst (λ (i : ℕ). subject.provider.get_server n i ≡ ok (some server)) (sym same) answered,
        )),
        labels,
        f,
      )
  seen_here n server answered same labels (Evaluation.pending p) h = tt
  seen_here n server answered same labels (Evaluation.failed f) h = absurd h

  -- The judgement of `getServer`'s answer.
  pub judge_server_answer-Confirms :
      (n : ℕ) (answer : Option ProviderServer)
      → subject.provider.get_server n resource.id ≡ ok answer
      → resource.kind ≡ ResourceKind.server
      → Confirms (IsShown subject) (judge_server_answer subject uncertain resource answer)
  unfolding judge_server_answer judge_server
  judge_server_answer-Confirms n none answered kind =
      absent_here n answered kind _ (judge_missing-Confirms subject.attempt.command)
  judge_server_answer-Confirms n (some server) answered kind =
      Confirms-if _ (server.id != resource.id) _ _ (λ _. tt)
        λ same.
          Confirms-if _
            (matches_labels server.labels (required_labels subject subject.attempt.command)) _ _
            (λ labels.
              seen_here n server answered (ground arith) labels _
                (judge_shown-Confirms subject.attempt.command server))
            λ _. tt

  -- What the address shows of a command.
  abbrev Address : ProviderCommand → Option ProviderPrimaryIp → ResourceObservation → Type 0
  Address command none observed = observed ≡ ResourceObservation.absent resource
  Address command (some ip) observed =
      (observed ≡ ResourceObservation.saw_primary_ip ip) × HasAddress command ip

  judge_ip-Confirms :
      (command : ProviderCommand) (answer : Option ProviderPrimaryIp)
      → Confirms (Address command answer) (judge_ip subject uncertain resource command answer)
  unfolding judge_ip
  judge_ip-Confirms (ProviderCommand.delete_primary_ip id) none = refl
  judge_ip-Confirms (ProviderCommand.delete_primary_ip id) (some ip) =
      Confirms-if _
        (not (matches_labels ip.labels subject.expected_labels)
          || not (is_unassigned ip.assignment))
        _ _ (λ _. tt) λ _. Confirms-pending _ uncertain resource
  judge_ip-Confirms (ProviderCommand.create_primary_ip region labels) none =
      Confirms-if _ (subject.recovering && not uncertain) _ _ (λ _. refl)
        λ _. Confirms-pending _ uncertain resource
  judge_ip-Confirms (ProviderCommand.create_primary_ip region labels) (some ip) =
      Confirms-if _
        (not (matches_labels ip.labels labels)
          || ip.region != region
          || not ip.auto_delete
          || not (is_unassigned ip.assignment))
        _ _ (λ _. tt) λ fits. (refl, (ground arith, ground arith, ground arith, ground arith))
  judge_ip-Confirms (ProviderCommand.destroy id) answer = tt
  judge_ip-Confirms (ProviderCommand.create a b c d) answer = tt
  judge_ip-Confirms (ProviderCommand.create_guest a b c d f) answer = tt
  judge_ip-Confirms (ProviderCommand.resize a b) answer = tt
  judge_ip-Confirms (ProviderCommand.enable_backup a) answer = tt
  judge_ip-Confirms (ProviderCommand.power_off a) answer = tt
  judge_ip-Confirms (ProviderCommand.power_on a) answer = tt
  judge_ip-Confirms (ProviderCommand.reboot a) answer = tt

  IsShown-ip :
      (n : ℕ) (answer : Option ProviderPrimaryIp)
      → subject.provider.get_primary_ip n resource.id ≡ ok answer
      → resource.kind ≡ ResourceKind.primary_ip
      → is_wrong_ip resource answer ≡ false
      → (v : Evaluation) → Confirms (Address subject.attempt.command answer) v
      → Confirms (IsShown subject) v
  IsShown-ip n none answered kind same (Evaluation.confirmed o) h =
      subst (IsShown subject) (sym h) (inr (n, answered, kind))
  IsShown-ip n (some ip) answered kind same (Evaluation.confirmed o) (e, f) =
      let here : ip.id ≡ resource.id = ground arith in
      subst (IsShown subject) (sym e) (
        ((
          n,
          subst (λ (i : ℕ). subject.provider.get_primary_ip n i ≡ ok (some ip)) (sym here) answered,
        )),
        f,
      )
  IsShown-ip n answer answered kind same (Evaluation.pending p) h = tt
  IsShown-ip n answer answered kind same (Evaluation.failed f) h = absurd h

  -- The judgement of `getPrimaryIp`'s answer.
  pub judge_ip_answer-Confirms :
      (n : ℕ) (answer : Option ProviderPrimaryIp)
      → subject.provider.get_primary_ip n resource.id ≡ ok answer
      → resource.kind ≡ ResourceKind.primary_ip
      → Confirms (IsShown subject) (judge_ip_answer subject uncertain resource answer)
  unfolding judge_ip_answer
  judge_ip_answer-Confirms n answer answered kind =
      Confirms-if _ (is_wrong_ip resource answer) _ _ (λ _. tt)
        λ same.
          IsShown-ip n answer answered kind same _
            (judge_ip-Confirms subject.attempt.command answer)
