-- ===== src/Infnoise/Contents.antt =====
-- `Source::read` of infnoise.rs delivers what the device gave.
use mathlib.Core.List.{append_assoc}
use pkcs11_rand.Base.{
  ◌≤◌, ◌≡◌, refl, sym, ap, ◌∙◌, [], ◌++◌, ok, err, Filled, drop-drop, behind, length, drop, arith,
  length-append, length-drop,
}
use pkcs11_rand.Host.{Bytes, got, Host, Sys, KernelLaws}
use pkcs11_rand.Infnoise.{Error, Source, read}
use pkcs11_rand.Infnoise.Read.{Reads, no_more, gave, signalled, read_rule}

-- What a read leaves behind: a slice of the same length and an untouched PC/SC context; the buffer
-- is the data of the read(2) calls; after an error, the call that failed came last, and the rest of the
-- buffer is as it was.
pub record Delivered (h : Host) (file : h.File) (buf : Bytes) (s : Sys h) (o : Filled (Sys h) Error)
    : Type 0 where
  pub len : length o.buf ≡ length buf
  pub global : o.state.global ≡ s.global
  pub given : Bytes
  pub rest : Bytes
  pub split : o.buf ≡ given ++ rest
  pub untouched : rest ≡ drop (length given) buf
  pub last : Sys h
  pub run : Reads h file s given last
  pub on_ok : o.status ≡ ok tt → (last ≡ o.state) × (rest ≡ [])
  pub on_error :
      (x : Error)
      → o.status ≡ err x
      → o.state ≡ record last { world = (h.read_file file (length rest) last.world).1 }

module _ ⦃h : Host⦄ (k : KernelLaws h) (src : Source h) where
  on_data :
      (buf : Bytes) (s : Sys h) (d : Bytes) (w : h.World) (o : Filled (Sys h) Error)
      → h.read_file src.file (length buf) s.world ≡ (got d, w)
      → length d ≤ length buf
      → Delivered h src.file (drop (length d) buf) (record s { world = w }) o
      → Delivered h src.file buf s (behind d o)
  on_data buf s d w o t le v = record {
    len = omega (arith, v.len, length-append d o.buf, length-drop (length d) buf);
    global = v.global;
    given = d ++ v.given;
    rest = v.rest;
    split = ap (◌++◌ d) v.split ∙ sym (append_assoc d v.given v.rest);
    untouched =
        v.untouched
        ∙ drop-drop (length v.given) (length d) buf
        ∙ ap (λ n. drop n buf) (sym (length-append d v.given));
    last = v.last;
    run = gave (length buf) d w t v.run;
    on_ok = v.on_ok;
    on_error = v.on_error;
  }

  pub device_read-Delivered :
      (buf : Bytes) (s : Sys h) → Delivered h src.file buf s (read src buf s)
  device_read-Delivered =
      read_rule k src (Delivered h src.file)
        (λ s. record {
          len = refl;
          global = refl;
          given = [];
          rest = [];
          split = refl;
          untouched = refl;
          last = s;
          run = no_more s;
          on_ok = λ _. (refl, refl);
          on_error = λ x e. absurd (cc);
        })
        (λ buf s w t. record {
          len = refl;
          global = refl;
          given = [];
          rest = buf;
          split = refl;
          untouched = refl;
          last = s;
          run = no_more s;
          on_ok = λ e. absurd (cc);
          on_error = λ x e. ap (λ w. record s { world = w }) (sym t);
        })
        on_data
        (λ buf s w o t v. record {
          len = v.len;
          global = v.global;
          given = v.given;
          rest = v.rest;
          split = v.split;
          untouched = v.untouched;
          last = v.last;
          run = signalled (length buf) w t v.run;
          on_ok = v.on_ok;
          on_error = v.on_error;
        })
