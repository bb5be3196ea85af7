-- ===== src/Github/Git/Checkout.antt =====
-- A clone that fails leaves no checkout behind.
use previewer.Prelude.{◌≡◌, refl, ◌∙◌, Bool, ◌⊎◌, inl, inr, String, true, false}
use previewer.Core.Text.{Text}
use previewer.Core.Failure.{Thrown}
use previewer.Github.Git.{
  Act, Done, Machine, temp_name, clone_into, catch, then_do, on_throw, ◌>>◌, pure, throw,
  fresh_clone,
}

-- What is documented of the calls, for one directory: removing and renaming do what they say, a rename
-- that throws changes nothing, and no other call makes the directory. Which directories hold a whole
-- checkout is for the machine to say (`is_complete`): a clone that answers makes one at its target, and a
-- rename that answers leaves at the new name what was at the old one.
pub record Spares {W : Type 0} (m : Machine W) (is_complete : String → W → Bool)
    (uuid url dir : String) : Type 0 where
  pub removes : (w w' : W) → m.remove dir w ≡ (w', inr tt) → m.exists dir w' ≡ false
  pub parent_only :
      (w : W) → m.exists dir w ≡ false → m.exists dir (m.make_dir (m.dirname dir) w).0 ≡ false
  pub clones_aside :
      (w : W)
      → m.exists dir w ≡ false
      → m.exists dir (clone_into m url (temp_name m uuid dir) w).0 ≡ false
  pub clones :
      (w w' : W) (printed : Text)
      → clone_into m url (temp_name m uuid dir) w ≡ (w', inr printed)
      → is_complete (temp_name m uuid dir) w' ≡ true
  pub renames :
      (w w' : W)
      → m.rename (temp_name m uuid dir) dir w ≡ (w', inr tt)
      → (m.exists dir w' ≡ true) × (is_complete dir w' ≡ is_complete (temp_name m uuid dir) w)
  pub renames_or_keeps :
      (w w' : W) (err : Thrown)
      → m.exists dir w ≡ false
      → m.rename (temp_name m uuid dir) dir w ≡ (w', inl err)
      → m.exists dir w' ≡ false
  pub removes_aside :
      (w : W) → m.exists dir w ≡ false → m.exists dir (m.remove (temp_name m uuid dir) w).0 ≡ false

module _ {W : Type 0} (m : Machine W) (is_complete : String → W → Bool) (dir : String) where
  -- The directory is there and holds a whole checkout if the call answers, and is not there if it throws.
  abbrev pub AllOrNothing : W × (Thrown ⊎ Done) → Type 0
  AllOrNothing (w, inr done) = (m.exists dir w ≡ true) × (is_complete dir w ≡ true)
  AllOrNothing (w, inl err) = m.exists dir w ≡ false

module _ {W : Type 0} (m : Machine W) (is_complete : String → W → Bool) (uuid url dir : String)
    (laws : Spares m is_complete uuid url dir) where
  abbrev clean_up : Thrown → Act W Done
  clean_up err = do catch (m.remove (temp_name m uuid dir)) (λ ignored. pure tt); throw err

  clean_up-AllOrNothing :
      (err : Thrown) (w : W) (out : W × (Thrown ⊎ Done))
      → m.remove (temp_name m uuid dir) w ≡ out
      → m.exists dir w ≡ false
      → AllOrNothing m is_complete dir (clean_up err w)
  clean_up-AllOrNothing err w (w', inl e) out absent =
      rw out (rw out at (laws.removes_aside w absent))
  clean_up-AllOrNothing err w (w', inr done) out absent =
      rw out (rw out at (laws.removes_aside w absent))

  -- The `catch` of a clone, after what the rename does
  renamed-AllOrNothing :
      (w : W) (out : W × (Thrown ⊎ Done))
      → m.rename (temp_name m uuid dir) dir w ≡ out
      → m.exists dir w ≡ false
      → is_complete (temp_name m uuid dir) w ≡ true
      → AllOrNothing m is_complete dir (on_throw clean_up out)
  renamed-AllOrNothing w (w', inl err) e absent whole =
      clean_up-AllOrNothing err w' _ refl (laws.renames_or_keeps w w' err absent e)
  renamed-AllOrNothing w (w', inr tt) e absent whole =
      let moved = laws.renames w w' e in (moved.0, moved.1 ∙ whole)

  cloned-AllOrNothing :
      (w : W) (out : W × (Thrown ⊎ Text))
      → clone_into m url (temp_name m uuid dir) w ≡ out
      → m.exists dir w ≡ false
      → AllOrNothing m is_complete dir
          (on_throw clean_up (then_do (λ printed. m.rename (temp_name m uuid dir) dir) out))
  cloned-AllOrNothing w (w', inl err) e absent =
      clean_up-AllOrNothing err w' _ refl (rw e at (laws.clones_aside w absent))
  cloned-AllOrNothing w (w', inr printed) e absent =
      renamed-AllOrNothing w' _ refl (rw e at (laws.clones_aside w absent))
        (laws.clones w w' printed e)

  made-AllOrNothing :
      (w : W) (out : W × (Thrown ⊎ Done))
      → m.make_dir (m.dirname dir) w ≡ out
      → m.exists dir w ≡ false
      → AllOrNothing m is_complete dir (
          then_do
            (λ done.
              catch
                (do clone_into m url (temp_name m uuid dir); m.rename (temp_name m uuid dir) dir)
                clean_up)
            out)
  made-AllOrNothing w (w', inl err) e absent = rw e at (laws.parent_only w absent)
  made-AllOrNothing w (w', inr done) e absent =
      cloned-AllOrNothing w' _ refl (rw e at (laws.parent_only w absent))

  -- Once what was there is removed, a clone that answers has left the directory in its place, with the
  -- whole checkout that git made; one that throws leaves no directory.
  pub fresh_clone-AllOrNothing :
      (w w' : W)
      → m.remove dir w ≡ (w', inr tt)
      → AllOrNothing m is_complete dir (fresh_clone m uuid url dir w)
  unfolding fresh_clone
  fresh_clone-AllOrNothing w w' removed =
      rw (fresh_clone, removed) (made-AllOrNothing w' _ refl (laws.removes w w' removed))
