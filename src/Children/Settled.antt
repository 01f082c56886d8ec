-- ===== src/Children/Settled.antt =====
-- internal/reconciler/children.go: when a parent reports its children as ready.
use netbox_operator.Common.{
  ◌≡◌, ◌≢◌, ◌↔◌, refl, String, true, false, Option, none, some, [], arith, ◌==◌, All, if-cases,
  str_eq,
}
use netbox_operator.Children.{
  verdict, report, suppresses, collected, unless_unwired, unless_skipped, declared, materialise,
}
use netbox_operator.Children.Names.{ChildSets, Bytes}
use netbox_operator.Children.Inputs.{Desired, ChildWriter, Parent, ChildEngine, ChildPass}
use netbox_operator.Children.State.{Materialisation, nothing_yet, collision, paths}
use netbox_operator.Children.Desire.{desire}
use netbox_operator.Children.Apply.{apply_children}
use netbox_operator.Children.Prune.{candidate_kinds, stale, prune}
use netbox_operator.Children.Safe.{wanted}
use netbox_operator.Children.Done.{IsDone, apply_children_iff}
use netbox_operator.Children.Ready.{Clean, verdict_iff, AllRecognised, desire_iff}
use netbox_operator.Children.Listed.{IsListed, prune_iff}

module _ (go : Bytes) (e : ChildEngine) (p : Parent) where
  -- Every child is there and ready, and no other one is left.
  pub record IsSettled (sets : ChildSets Desired) (w : ChildWriter) : Type 0 where
    pub inline : p.inline ≡ some sets
    pub wired : e.children ≡ some w
    pub not_deleted : p.deleting ≡ false
    pub not_suppressed : suppresses go e p p.result ≡ false
    pub created : p.id ≢ 0
    pub apart : collision [] (wanted go e p sets) ≡ false
    pub recognised : AllRecognised go e p sets
    pub done : All (IsDone go e p w) (wanted go e p sets)
    pub listed : All (IsListed e p w) (candidate_kinds e p w (wanted go e p sets))
    pub none_stale :
        stale e p w (paths (wanted go e p sets)) (candidate_kinds e p w (wanted go e p sets)) ≡ []

  -- The condition ChildrenReady is set, and to true.
  abbrev pub SaysReady : ChildPass → Type 0
  SaysReady pass = (reason : String) × (pass.condition ≡ some (true, reason))

  report_iff : (m : Materialisation) → SaysReady (report go e p m) ↔ Clean m
  unfolding report
  report_iff m =
      if-cases (λ (pass : ChildPass). SaysReady pass ↔ Clean m)
        (str_eq (verdict go e p m) "AllReady") _ _
        (λ t. (λ h. (verdict_iff go e p m).0 t, λ c. (verdict go e p m, refl)))
        (λ f. (λ h. let s = h.1 in cc, λ c. absurd ground (arith, f, (verdict_iff go e p m).1 c)))

  -- What is asked of the children of a parent that may write.
  abbrev Body : ChildSets Desired → ChildWriter → Type 0
  Body sets w =
      (collision [] (wanted go e p sets) ≡ false)
      × AllRecognised go e p sets
      × All (IsDone go e p w) (wanted go e p sets)
      × All (IsListed e p w) (candidate_kinds e p w (wanted go e p sets))
      × (stale e p w (paths (wanted go e p sets)) (candidate_kinds e p w (wanted go e p sets)) ≡ [])

  collected_iff :
      (w : ChildWriter) (sets : ChildSets Desired)
      → SaysReady (collected go e p w (desire go e p sets [] nothing_yet)) ↔ Body sets w
  unfolding collected
  collected_iff w sets =
      let m : Materialisation = desire go e p sets [] nothing_yet in
      let applied_all : Materialisation = apply_children go e p w m.want m in
      let reports = report_iff (prune e p w m.want applied_all) in
      let prunes = prune_iff e p w m.want applied_all in
      let applies = apply_children_iff go e p w m.want m in
      let desires = desire_iff go e p sets [] nothing_yet in
      if-cases (λ (pass : ChildPass). SaysReady pass ↔ Body sets w) (collision [] m.want) _ _
        (λ t. (λ h. let s = h.1 in cc, λ b. absurd ground (arith, t, b.0)))
        (λ f. (
          λ h.
              let (c, l, s) = prunes.0 (reports.0 h) in
              let (a, d) = applies.0 c in (f, (desires.0 a).1, d, l, s),
          λ (f2, k, d, l, s).
              reports.1 (prunes.1 (applies.1 (desires.1 ((refl, refl, refl, refl), k), d), l, s)),
        ))

  unless_unwired_iff :
      (w : Option ChildWriter) (sets : ChildSets Desired)
      → SaysReady (unless_unwired go e p w sets)
        ↔ ((writer : ChildWriter) × (w ≡ some writer) × Body sets writer)
  unfolding unless_unwired
  unless_unwired_iff none sets = (λ h. let s = h.1 in cc, λ (writer, same, b). cc)
  unless_unwired_iff (some w) sets =
      let step = collected_iff w sets in
      (
        λ h. (w, refl, step.0 h),
        λ (writer, same, b). let eq : writer ≡ w = cc in step.1 (rw eq at b),
      )

  -- What is asked of the parent.
  abbrev Allowed : ChildSets Desired → ChildWriter → Type 0
  Allowed sets w =
      (p.deleting ≡ false)
      × (suppresses go e p p.result ≡ false)
      × (p.id ≢ 0)
      × (e.children ≡ some w)
      × Body sets w

  unless_skipped_iff :
      (sets : ChildSets Desired)
      → SaysReady (unless_skipped go e p sets) ↔ ((w : ChildWriter) × Allowed sets w)
  unfolding unless_skipped
  unless_skipped_iff sets =
      let step = unless_unwired_iff e.children sets in
      let Goal = λ (pass : ChildPass). SaysReady pass ↔ ((w : ChildWriter) × Allowed sets w) in
      if-cases Goal p.deleting _ _
        (λ t. (λ h. let s = h.1 in cc, λ a. absurd ground (arith, t, a.1.0)))
        (λ alive.
          if-cases Goal (suppresses go e p p.result) _ _
            (λ t. (λ h. let s = h.1 in cc, λ a. absurd ground (arith, t, a.1.1)))
            (λ sending.
              if-cases Goal (p.id == 0) _ _
                (λ t. (λ h. let s = h.1 in cc, λ a. absurd (a.1.2 (ground (arith, t)))))
                (λ f. (
                  λ h.
                      let (w, wired, b) = step.0 h in
                      (w, (alive, sending, (λ z. absurd ground (arith, f, z)), wired, b)),
                  λ (w, (alive2, sending2, id, wired, b)). step.1 (w, wired, b),
                ))))

  declared_iff :
      (inline : Option (ChildSets Desired))
      → SaysReady (declared go e p inline)
        ↔ ((sets : ChildSets Desired) × (w : ChildWriter) × (inline ≡ some sets) × Allowed sets w)
  declared_iff none = (λ h. let s = h.1 in cc, λ (sets, w, same, a). cc)
  declared_iff (some sets) =
      let step = unless_skipped_iff sets in
      (
        λ h. let (w, a) = step.0 h in (sets, w, refl, a),
        λ (other, w, same, a). let eq : other ≡ sets = cc in step.1 (w, rw eq at a),
      )

  -- ChildrenReady is set to true exactly if what the steps of the pass compute is settled.
  pub IsSettled-iff :
      SaysReady (materialise go e p)
      ↔ ((sets : ChildSets Desired) × (w : ChildWriter) × IsSettled sets w)
  unfolding materialise
  IsSettled-iff =
      let step = declared_iff p.inline in
      (
        λ h.
            let (sets, w, inline, allowed) = step.0 h in
            let (alive, sending, id, wired, body) = allowed in
            let (apart, known, done, lists, stales) = body in
            (
              sets,
              w,
              record {
                inline = inline;
                wired = wired;
                not_deleted = alive;
                not_suppressed = sending;
                created = id;
                apart = apart;
                recognised = known;
                done = done;
                listed = lists;
                none_stale = stales;
              },
            ),
        λ (sets, w, r). step.1 (
          sets,
          w,
          r.inline,
          (
            r.not_deleted,
            r.not_suppressed,
            r.created,
            r.wired,
            (r.apart, r.recognised, r.done, r.listed, r.none_stale),
          ),
        ),
      )
