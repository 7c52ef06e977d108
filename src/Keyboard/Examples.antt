-- ===== src/Keyboard/Examples.antt =====
-- The keys of "hello", by `read` of kernel/keyboard.c.
use my_kernel.Common.{◌≡◌, refl}
use my_kernel.Keyboard.{read}

pub read_hello : (read 0x23 ≡ b'h') × (read 0x12 ≡ b'e') × (read 0x26 ≡ b'l') × (read 0x18 ≡ b'o')
unfolding read
read_hello = (refl, refl, refl, refl)
