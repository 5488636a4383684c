-- ===== src/Remediation/Store/Approvals.antt =====
-- `get_approvals` and the searches in its result.
use tradeops_sentinel.Base.{
  Bool, Option-cases, String, arith, false, filter, find, find-append_none, find-append_some,
  find-filter, find-filter-none, inl, inr, not, refl, sym, true, ◌&&◌, ◌==◌, ◌∙◌, ◌≡◌,
}
use tradeops_sentinel.Remediation.Models.{ApprovalRole, checker, maker, same_role}
use tradeops_sentinel.Remediation.Store.{get_approvals, is_approval}
use tradeops_sentinel.Remediation.Tables.{ApprovalRow, Db}

of_role : (b : Bool) (r role : ApprovalRole) → (b && same_role r role) ≡ true → r ≡ role
of_role b maker maker h = refl
of_role b checker checker h = refl
of_role b maker checker h = ground arith
of_role b checker maker h = ground arith

role_of :
    (id : String) (role : ApprovalRole) (row : ApprovalRow)
    → is_approval id role row ≡ true
    → row.role ≡ role
role_of id role row h = of_role (row.case_id == id) row.role role h

module _ (p : ApprovalRow → Bool) (id : String) (db : Db) where
  find_checker :
      ((row : ApprovalRow) → row.role ≡ checker → p row ≡ true)
      → ((row : ApprovalRow) → row.role ≡ maker → p row ≡ false)
      → find p (get_approvals id db) ≡ find (is_approval id checker) db.approvals
  unfolding get_approvals
  find_checker holds fails =
      let by_checker = filter (is_approval id checker) db.approvals in
      let by_maker = filter (is_approval id maker) db.approvals in
      let first =
        find-filter p (is_approval id checker) db.approvals
          (λ row h. holds row (role_of id checker row h)) in
      elim (Option-cases (find (is_approval id checker) db.approvals)) [
        | inl absent ↦
            find-append_none p by_checker by_maker (first ∙ absent)
            ∙ find-filter-none p (is_approval id maker) db.approvals
                (λ row h. fails row (role_of id maker row h))
            ∙ sym absent
        | inr (a, present) ↦ find-append_some p by_checker by_maker (first ∙ present) ∙ sym present
      ]

  find_maker :
      ((row : ApprovalRow) → row.role ≡ maker → p row ≡ true)
      → ((row : ApprovalRow) → row.role ≡ checker → p row ≡ false)
      → find p (get_approvals id db) ≡ find (is_approval id maker) db.approvals
  unfolding get_approvals
  find_maker holds fails =
      let by_checker = filter (is_approval id checker) db.approvals in
      let by_maker = filter (is_approval id maker) db.approvals in
      find-append_none p by_checker by_maker (
        find-filter-none p (is_approval id checker) db.approvals
          (λ row h. fails row (role_of id checker row h)))
      ∙ find-filter p (is_approval id maker) db.approvals
          (λ row h. holds row (role_of id maker row h))

-- The first approval of a role in the list is the one in the table.
pub find_role :
    (id : String) (role : ApprovalRole) (db : Db)
    → find (λ row. same_role row.role role) (get_approvals id db)
      ≡ find (is_approval id role) db.approvals
find_role id checker db =
    find_checker (λ row. same_role row.role checker) id db (λ row h. rw h refl) (λ row h. rw h refl)
find_role id maker db =
    find_maker (λ row. same_role row.role maker) id db (λ row h. rw h refl) (λ row h. rw h refl)

-- So is the first approval of another role than the given one.
pub find_other_role :
    (id : String) (role other : ApprovalRole) (db : Db)
    → same_role other role ≡ false
    → find (λ row. not (same_role row.role role)) (get_approvals id db)
      ≡ find (is_approval id other) db.approvals
find_other_role id maker checker db h =
    find_checker (λ row. not (same_role row.role maker)) id db (λ row h. rw h refl)
      (λ row h. rw h refl)
find_other_role id checker maker db h =
    find_maker (λ row. not (same_role row.role checker)) id db (λ row h. rw h refl)
      (λ row h. rw h refl)
find_other_role id maker maker db h = cc
find_other_role id checker checker db h = cc
