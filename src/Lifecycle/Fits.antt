-- ===== src/Lifecycle/Fits.antt =====
-- Where `main` and the mutex can go while Stop comes on.
use le_kv.Base.{◌+◌, ◌<◌, true, false, some, ◌≡◌, ◌≢◌, refl, arith}
use le_kv.Lifecycle.{
  Process, MainPc, starting, flagging, arming, waiting, checking, dozing, sleeping, joining, exited,
  Mutex, free, main_holds, stopper_holds, when_free, woken,
}
use le_kv.Lifecycle.Measure.{
  Era, early, held, told, late, past, can_be, runs, main_has, holder, main_left,
}

pub when_free-some :
    (m : Mutex) (next s' : Process)
    → when_free m next ≡ some s'
    → (m ≡ free) × (some next ≡ some s')
unfolding when_free
when_free-some free next s' e = (refl, e)
when_free-some main_holds next s' e = absurd (ground (arith, e))
when_free-some stopper_holds next s' e = absurd (ground (arith, e))

-- `main` can be elsewhere in the same era, and the mutex is its holder's.
abbrev pub Fits : Era → MainPc → Mutex → Type 0
Fits e m x = (can_be e m ≡ true) × (x ≡ holder e m)

pub goes_checking :
    (e : Era) → can_be e waiting ≡ true → holder e waiting ≡ free → Fits e checking main_holds
goes_checking early c h = (refl, refl)
goes_checking held c h = cc
goes_checking told c h = (refl, refl)
goes_checking late c h = (refl, refl)
goes_checking past c h = (refl, refl)

pub goes_dozing :
    (e : Era) → can_be e checking ≡ true → runs e ≡ true → Fits e dozing (holder e checking)
goes_dozing early c h = (refl, refl)
goes_dozing held c h = cc
goes_dozing told c h = cc
goes_dozing late c h = cc
goes_dozing past c h = cc

pub goes_joining : (e : Era) → can_be e checking ≡ true → runs e ≡ false → Fits e joining free
goes_joining early c h = cc
goes_joining held c h = cc
goes_joining told c h = (refl, refl)
goes_joining late c h = (refl, refl)
goes_joining past c h = (refl, refl)

pub goes_sleeping : (e : Era) → can_be e dozing ≡ true → Fits e sleeping free
goes_sleeping early c = (refl, refl)
goes_sleeping held c = cc
goes_sleeping told c = cc
goes_sleeping late c = cc
goes_sleeping past c = cc

-- The stop thread gets the mutex only when `main` is before it or asleep.
pub goes_held : (m : MainPc) → can_be early m ≡ true → main_has m ≡ free → Fits held m stopper_holds
goes_held starting c h = cc
goes_held flagging c h = cc
goes_held arming c h = cc
goes_held waiting c h = (refl, refl)
goes_held checking c h = cc
goes_held dozing c h = cc
goes_held sleeping c h = (refl, refl)
goes_held joining c h = cc
goes_held exited c h = cc

pub goes_told : (m : MainPc) → can_be held m ≡ true → Fits told m free
goes_told starting c = cc
goes_told flagging c = cc
goes_told arming c = cc
goes_told waiting c = (refl, refl)
goes_told checking c = cc
goes_told dozing c = cc
goes_told sleeping c = (refl, refl)
goes_told joining c = cc
goes_told exited c = cc

-- The notification leaves no one asleep, and costs the three steps to the sleep again.
pub goes_late :
    (m : MainPc)
    → can_be told m ≡ true
    → Fits late (woken m) (main_has m) × (main_left (woken m) < main_left m + 4)
unfolding woken
goes_late starting c = cc
goes_late flagging c = cc
goes_late arming c = cc
goes_late waiting c = ((refl, refl), omega arith)
goes_late checking c = ((refl, refl), omega arith)
goes_late dozing c = cc
goes_late sleeping c = ((refl, refl), omega arith)
goes_late joining c = ((refl, refl), omega arith)
goes_late exited c = cc

pub goes_past : (m : MainPc) → can_be late m ≡ true → Fits past m (main_has m)
goes_past starting c = cc
goes_past flagging c = cc
goes_past arming c = cc
goes_past waiting c = (refl, refl)
goes_past checking c = (refl, refl)
goes_past dozing c = cc
goes_past sleeping c = cc
goes_past joining c = (refl, refl)
goes_past exited c = cc

-- `main` is not in front of its wait.
pub not_before :
    (e : Era) → (can_be e starting ≢ true) × (can_be e flagging ≢ true) × (can_be e arming ≢ true)
not_before early = (cc, cc, cc)
not_before held = (cc, cc, cc)
not_before told = (cc, cc, cc)
not_before late = (cc, cc, cc)
not_before past = (cc, cc, cc)
