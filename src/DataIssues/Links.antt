-- ===== src/DataIssues/Links.antt =====
-- services/api/app/models/data_issue.py: issues that belong to an order, and their keys.
use auto_scheduling_system.Prelude.{
  ℕ, ◌≡◌, refl, ap, sym, subst, Bool, true, false, ◌&&◌, Option, none, some, ==_iff, Text, text_eq,
  text_eq_refl, text_eq→≡, is_empty, strip, show_nat, inl, inr, ◌⊎◌, Bool-cases,
}
use auto_scheduling_system.Prelude.Result.{ok, err, value_error}
use auto_scheduling_system.DataIssues.{
  DataIssue, IssueReport, normalize_order_link, normalize_source_system, set_biz_key,
  set_order_line_id, null_eq, is_of_order, matches_open_issue, refresh_issue, open_status,
  matches_link,
}

pub link_self :
    (id : ℕ)
    → normalize_order_link (some (show_nat id)) (some id) ≡ ok (some (show_nat id), some id)
unfolding normalize_order_link
link_self id = elim (Bool-cases (is_empty (strip (show_nat id)))) [
  | inl e ↦ rw e refl
  | inr e ↦ rw e (rw (text_eq_refl (show_nat id)) refl)
]

-- The key and the order that a normalisation gives agree.
abbrev pub Agree : Option Text → Option ℕ → Type 0
Agree biz_key none = Unit
Agree biz_key (some id) = biz_key ≡ some (show_nat id)

pub Agree-again :
    (biz_key : Option Text) (order_line_id : Option ℕ)
    → Agree biz_key order_line_id
    → normalize_order_link biz_key order_line_id ≡ ok (biz_key, order_line_id)
unfolding normalize_order_link
Agree-again biz_key none h = refl
Agree-again biz_key (some id) h = rw h (link_self id)

abbrev pub IsLink : Option ℕ → Option Text × Option ℕ → Type 0
IsLink order_line_id link = Agree link.0 link.1 × (link.1 ≡ order_line_id)

pub ok-injective {ℓ} : {A : Type ℓ} {a b : A} → ok a ≡ ok b → a ≡ b
ok-injective h = cc

pub err_is_not_ok {ℓ} : {A : Type ℓ} {a : A} → ¬ (err value_error ≡ ok a)
err_is_not_ok h = cc

pub normalize_order_link-IsLink :
    (biz_key : Option Text) (order_line_id : Option ℕ) {link : Option Text × Option ℕ}
    → normalize_order_link biz_key order_line_id ≡ ok link
    → IsLink order_line_id link
unfolding normalize_order_link
normalize_order_link-IsLink biz_key none h = subst (IsLink none) (ok-injective h) (tt, refl)
normalize_order_link-IsLink none (some id) h =
    subst (IsLink (some id)) (ok-injective h) (refl, refl)
normalize_order_link-IsLink (some key) (some id) h = elim (Bool-cases (is_empty (strip key))) [
  | inl e ↦ subst (IsLink (some id)) (ok-injective (rw e at h)) (refl, refl)
  | inr e ↦ elim (Bool-cases (text_eq key (show_nat id))) [
    | inl k ↦ subst (IsLink (some id)) (ok-injective (rw k at (rw e at h))) (refl, refl)
    | inr k ↦ absurd (err_is_not_ok (rw k at (rw e at h)))
  ]
]

pub link_cases :
    (biz_key : Option Text) (order_line_id : Option ℕ)
    → (normalize_order_link biz_key order_line_id ≡ err value_error)
      ⊎ ((link : Option Text × Option ℕ) × (normalize_order_link biz_key order_line_id ≡ ok link))
unfolding normalize_order_link
link_cases biz_key none = inr ((biz_key, none), refl)
link_cases none (some id) = inr ((some (show_nat id), some id), refl)
link_cases (some key) (some id) = elim (Bool-cases (is_empty (strip key))) [
  | inl e ↦ inr ((some (show_nat id), some id), rw e refl)
  | inr e ↦ elim (Bool-cases (text_eq key (show_nat id))) [
    | inl k ↦ inr ((some (show_nat id), some id), rw e (rw k refl))
    | inr k ↦ inl (rw e (rw k refl))
  ]
]

-- A key that belongs to an order agrees with it.
abbrev pub IsLinked : DataIssue → Type 0
IsLinked issue = Agree issue.biz_key issue.order_line_id

abbrev pub refreshed : IssueReport → DataIssue → DataIssue
refreshed report issue = record issue {
  issue_level = report.issue_level;
  issue_title = report.issue_title;
  issue_detail = report.issue_detail;
  biz_key = report.biz_key;
  order_line_id = report.order_line_id;
}

pub refresh_issue-Agree :
    (report : IssueReport) (issue : DataIssue)
    → Agree report.biz_key issue.order_line_id
    → Agree report.biz_key report.order_line_id
    → refresh_issue report issue ≡ ok (refreshed report issue)
unfolding refresh_issue set_biz_key set_order_line_id
refresh_issue-Agree report issue h k =
    rw (Agree-again report.biz_key issue.order_line_id h)
      (rw (Agree-again report.biz_key report.order_line_id k) refl)

pub null_eq→≡ : (a b : Option Text) → null_eq a b ≡ true → a ≡ b
null_eq→≡ none none h = refl
null_eq→≡ (some a) (some b) h = ap (λ (t : Text). some t) (text_eq→≡ a b h)
null_eq→≡ none (some b) h = cc
null_eq→≡ (some a) none h = cc

pub null_eq_refl : (a : Option Text) → null_eq a a ≡ true
null_eq_refl none = refl
null_eq_refl (some a) = text_eq_refl a

pub is_of_order→≡ : (id : ℕ) (o : Option ℕ) → is_of_order id o ≡ true → o ≡ some id
is_of_order→≡ id none h = cc
is_of_order→≡ id (some n) h = ap (λ (m : ℕ). some m) ((==_iff n id).0 h)

pub both : (a b : Bool) → (a && b) ≡ true → (a ≡ true) × (b ≡ true)
both true b h = (refl, h)
both false b h = cc

-- A row that matches a report agrees with the report's key.
pub matches_link-Agree :
    (report : IssueReport) (issue : DataIssue) (order_line_id : Option ℕ)
    → Agree report.biz_key order_line_id
    → IsLinked issue
    → matches_link report issue order_line_id ≡ true
    → Agree report.biz_key issue.order_line_id
matches_link-Agree report issue (some id) agree linked h =
    subst (Agree report.biz_key) (sym (is_of_order→≡ id issue.order_line_id h)) agree
matches_link-Agree report issue none agree linked h =
    let (_, key) = both (text_eq issue.issue_title report.issue_title) _ h in
    subst (λ key. Agree key issue.order_line_id) (null_eq→≡ issue.biz_key report.biz_key key) linked

pub matches-Agree :
    (report : IssueReport) (issue : DataIssue)
    → Agree report.biz_key report.order_line_id
    → IsLinked issue
    → matches_open_issue report issue ≡ true
    → Agree report.biz_key issue.order_line_id
unfolding matches_open_issue
matches-Agree report issue agree linked h =
    let (_, rest) = both (text_eq issue.issue_type report.issue_type) _ h in
    let (_, more) =
      both (null_eq issue.source_system (normalize_source_system report.source_system)) _ rest in
    let (_, link) = both (text_eq issue.status open_status) _ more in
    matches_link-Agree report issue report.order_line_id agree linked link
