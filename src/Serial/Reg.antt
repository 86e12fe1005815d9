-- ===== src/Serial/Reg.antt =====
-- The offsets of the registers of the 16550, and the bits in them.
use edk2_arc.Base.{ℕ, bit_or}

abbrev pub rxbuf : ℕ
rxbuf = 0

abbrev pub txbuf : ℕ
txbuf = 0

abbrev pub dll : ℕ
dll = 0

abbrev pub dlm : ℕ
dlm = 1

abbrev pub ier : ℕ
ier = 1

abbrev pub fcr : ℕ
fcr = 2

abbrev pub lcr : ℕ
lcr = 3

abbrev pub mcr : ℕ
mcr = 4

abbrev pub lsr : ℕ
lsr = 5

abbrev pub msr : ℕ
msr = 6

abbrev pub fcr_fifoe : ℕ
fcr_fifoe = 0x01

abbrev pub fcr_rxsr : ℕ
fcr_rxsr = 0x02

abbrev pub fcr_txsr : ℕ
fcr_txsr = 0x08

abbrev pub fcr_fifo64 : ℕ
fcr_fifo64 = 0x20

abbrev pub fcrval : ℕ
fcrval = bit_or (bit_or fcr_fifoe fcr_rxsr) fcr_txsr

abbrev pub lcr_8n1 : ℕ
lcr_8n1 = 0x03

abbrev pub lcr_dlab : ℕ
lcr_dlab = 0x80

abbrev pub mcr_dtr : ℕ
mcr_dtr = 0x01

abbrev pub mcr_rts : ℕ
mcr_rts = 0x02

abbrev pub mcrval : ℕ
mcrval = bit_or mcr_dtr mcr_rts

abbrev pub lsr_rxrdy : ℕ
lsr_rxrdy = 0x01

abbrev pub lsr_txrdy : ℕ
lsr_txrdy = 0x20

abbrev pub lsr_temt : ℕ
lsr_temt = 0x40

abbrev pub msr_cts : ℕ
msr_cts = 0x10

abbrev pub msr_dsr : ℕ
msr_dsr = 0x20
