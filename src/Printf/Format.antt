-- ===== src/Printf/Format.antt =====
-- The loop of `kprintf` of src/stdio/printf.c over a format.
